-- ===== src/Reach.antt =====
-- Every match that internal/matchengine/engine.go can bring about from a new one.
use rct_hub_backend.Base.{ℕ, suc, ◌≤◌, ◌<◌, ◌≡◌, ◌≢◌, true, arith, sym, subst, ◌∙◌}
use rct_hub_backend.Base.Int.{pos, pos_part, inc_u64, max_int64}
use rct_hub_backend.Model.Kinds.{Lifecycle}
use rct_hub_backend.Model.Errors.{ok}
use rct_hub_backend.Model.Timer.{Time}
use rct_hub_backend.Model.State.{Configuration, State, Actor}
use rct_hub_backend.Model.Events.{Command, Transition}
use rct_hub_backend.Engine.Execute.{execute}
use rct_hub_backend.Setup.{new_ready_state}
use rct_hub_backend.Validation.{validate_lifecycle_state, valid_turn}
use rct_hub_backend.Coherence.Defs.{IsCoherent}
use rct_hub_backend.Coherence.Laws.{execute-IsStarted}
use rct_hub_backend.Frame.Laws.{execute-IsCommit}
use rct_hub_backend.Ready.Laws.{new_ready_state-IsCoherent, new_ready_state-IsNew}

-- `Reach s n u`: n accepted commands, by any actors at any times, lead from s to u. Rejected
-- commands between them leave the state as it is.
pub data Reach (s : State) : ℕ → State → Type 0 where
  here : Reach s 0 s
  next :
      {n : ℕ} {u v : State}
      → Reach s n u
      → (actor : Actor) (c : Command) (now : Time) (t : Transition) → execute u actor c now ≡ ok t
      → v ≡ t.state
      → Reach s (suc n) v

-- What n commands leave true of a match.
pub record IsReached (c : Configuration) (n : ℕ) (u : State) : Type 0 where
  pub coherent : IsCoherent u
  pub untouched : n ≡ 0 → u.lifecycle ≡ Lifecycle.ready
  pub version : u.version ≡ n
  pub turn : pos_part u.turn ≤ n
  pub first_ban : u.first_ban ≡ c.first_ban
  pub first_pick : u.first_pick ≡ c.first_pick
  pub rosters : u.rosters ≡ c.rosters
  pub timers : u.timers ≡ c.timers

count_up : (v n : ℕ) → v ≡ n → suc n < 4611686018427387904 → inc_u64 v ≡ suc n
unfolding inc_u64
count_up v n e small = ground arith

abbrev pub command_limit : ℕ
command_limit = 4611686018427387904

Reach-IsReached :
    (c : Configuration) {s : State} {n : ℕ} {u : State}
    → new_ready_state c ≡ ok s
    → Reach s n u
    → n < command_limit
    → IsReached c n u
Reach-IsReached c new here small =
    let k = new_ready_state-IsNew c new in
    record {
      coherent = new_ready_state-IsCoherent c new;
      untouched = λ _. k.lifecycle;
      version = k.version;
      turn = ground (arith, k.turn);
      first_ban = k.first_ban;
      first_pick = k.first_pick;
      rosters = k.rosters;
      timers = k.timers;
    }
Reach-IsReached c new (next {n} {u} r actor command now t h e) small =
    let before = Reach-IsReached c new r (omega arith) in
    let k = execute-IsCommit u actor command now h in
    let fits : u.turn ≢ pos max_int64 = ground (arith, before.turn) in
    subst (IsReached c (suc n)) (sym e) (record {
      coherent = (execute-IsStarted u actor command now before.coherent fits h).coherent;
      untouched = λ z. absurd (omega arith);
      version = k.version ∙ count_up u.version n before.version small;
      turn = omega (arith, k.turn, before.turn);
      first_ban = k.first_ban ∙ before.first_ban;
      first_pick = k.first_pick ∙ before.first_pick;
      rosters = k.rosters ∙ before.rosters;
      timers = k.timers ∙ before.timers;
    })

IsReached-validate_lifecycle_state :
    (c : Configuration) (n : ℕ) (u : State) → IsReached c n u → validate_lifecycle_state u ≡ true
unfolding validate_lifecycle_state
IsReached-validate_lifecycle_state c n u k =
    ground (arith, k.untouched, k.version, k.coherent.lifecycle)

-- In every match that fewer than 2 ^ 62 accepted commands bring about from the state that
-- NewReadyState returns, validateLifecycleState and the turn check of ValidateState pass, the
-- version is the number of commands, the turn is at most that number, and the configuration is the
-- one of the start.
pub Reach-valid :
    (c : Configuration) {s : State} {n : ℕ} {u : State}
    → new_ready_state c ≡ ok s
    → Reach s n u
    → n < command_limit
    → (validate_lifecycle_state u ≡ true)
      × (valid_turn u.phase u.lifecycle u.first_ban u.first_pick u.turn u.active_team ≡ true)
      × (u.version ≡ n)
      × (pos_part u.turn ≤ n)
      × (u.first_ban ≡ c.first_ban)
      × (u.first_pick ≡ c.first_pick)
      × (u.rosters ≡ c.rosters)
      × (u.timers ≡ c.timers)
Reach-valid c {n} {u} new r small =
    let k = Reach-IsReached c new r small in
    (
      IsReached-validate_lifecycle_state c n u k,
      k.coherent.turn,
      k.version,
      k.turn,
      k.first_ban,
      k.first_pick,
      k.rosters,
      k.timers,
    )
