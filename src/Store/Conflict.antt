-- ===== src/Store/Conflict.antt =====
-- Apply of internal/persistence/command_store.go: on a command that it cannot apply, and on one that
-- has a receipt.
use rct_hub_backend.Base.{
  ◌≡◌, refl, sym, ap, Bool, false, true, some, arith, nat_Eq, text_Eq, text_eq_iff, ◌==◌,
  if◌then◌else◌, ◌⊎◌, inl, inr,
}
use rct_hub_backend.Model.State.{State}
use rct_hub_backend.Model.Events.{Transition}
use rct_hub_backend.Command.Errors.{CommandError, Attempt, done, fail}
use rct_hub_backend.Command.Authorize.{AuthorizedActor}
use rct_hub_backend.Store.Documents.{Envelope, Disposition, Result, MatchCommandReceiptDocument}
use rct_hub_backend.Store.Driver.{Driver, Codec, Ids, IsDriver, Found}
use rct_hub_backend.Store.Commands.{load_receipt, replay, apply}
use rct_hub_backend.Store.Replay.{Applied, Ended, apply-Ended, load_receipt-replayed}

abbrev is_new : Disposition → Bool
is_new Disposition.applied = true
is_new Disposition.replayed = false

-- A result of a command that was applied just now.
abbrev pub is_applied : Attempt Result → Bool
is_applied (fail e) = false
is_applied (done r) = is_new r.disposition

-- The database is as it was, and the answer is an error or a replay.
abbrev pub IsIdle : {D : Type 0} → D → Attempt Result × D → Type 0
IsIdle d out = (out.1 ≡ d) × (is_applied out.0 ≡ false)

module _ {D B : Type 0} (m : Driver D B) (codec : Codec B) (envelope : Envelope) (ids : Ids)
    (authorized : Attempt AuthorizedActor) (execute : State → AuthorizedActor → Attempt Transition)
    (d : D)
    (never : (d' : D) (r : Result) → ¬ Applied m codec envelope ids authorized execute d d' r) where
  Ended-IsIdle :
      {out : Attempt Result × D}
      → Ended m codec envelope ids authorized execute d out
      → IsIdle d out
  Ended-IsIdle (Ended.failed e) = (refl, refl)
  Ended-IsIdle (Ended.replayed r h) =
      (refl, ap (λ x. is_new x.disposition) (sym (load_receipt-replayed m codec envelope d h)))
  Ended-IsIdle (Ended.applied r d' new) = ground (arith, never d' r new)
  Ended-IsIdle (Ended.unacknowledged e r d' new) = ground (arith, never d' r new)
  Ended-IsIdle (Ended.answered r r' d' new h) = ground (arith, never d' r new)

  -- A command that can never be applied.
  pub apply-IsIdle : IsDriver m → IsIdle d (apply m codec ids envelope authorized execute d)
  apply-IsIdle law = Ended-IsIdle (apply-Ended m codec law envelope ids authorized execute d)

Found-cases {ℓ} :
    {A : Type ℓ} (f : Found A)
    → ((a : A) × (f ≡ Found.found a)) ⊎ (f ≡ Found.no_documents) ⊎ (f ≡ Found.broken)
Found-cases (Found.found a) = inl (a, refl)
Found-cases Found.no_documents = inr (inl refl)
Found-cases Found.broken = inr (inr refl)

module _ {D B : Type 0} (m : Driver D B) (codec : Codec B) where
  replay-repeat :
      (receipt : MatchCommandReceiptDocument B) (envelope envelope' : Envelope) {r : Result}
      → replay codec receipt envelope ≡ done r
      → replay codec receipt envelope' ≡ (
          if envelope'.request_hash == envelope.request_hash
          then done r
          else fail CommandError.duplicate_command_mismatch)
  unfolding replay
  replay-repeat receipt envelope envelope' h = ground (
    arith,
    h,
    text_eq_iff envelope'.request_hash envelope.request_hash,
    text_eq_iff receipt.request_hash envelope.request_hash,
    text_eq_iff receipt.request_hash envelope'.request_hash,
  )

  -- What a receipt answers to any command under its id.
  pub load_receipt-repeat :
      (envelope envelope' : Envelope) (d later : D) {r : Result}
      → envelope'.match_id ≡ envelope.match_id
      → envelope'.command_id ≡ envelope.command_id
      → m.find_receipt envelope.match_id envelope.command_id later
        ≡ m.find_receipt envelope.match_id envelope.command_id d
      → load_receipt m codec envelope d ≡ done (some r)
      → load_receipt m codec envelope' later ≡ (
          if envelope'.request_hash == envelope.request_hash
          then done (some r)
          else fail CommandError.duplicate_command_mismatch)
  unfolding load_receipt
  load_receipt-repeat envelope envelope' d later {r} same_match same_id kept h =
      elim (Found-cases (m.find_receipt envelope.match_id envelope.command_id d)) [
        | inr other ↦ ground (arith, h, other)
        | inl (receipt, found) ↦
            let replayed : replay codec receipt envelope ≡ done r = ground (arith, h, found) in
            ground (arith, replay-repeat receipt envelope envelope' replayed, found)
      ]

  pub apply-repeat :
      (same : Bool) (envelope : Envelope) (ids : Ids) (authorized : Attempt AuthorizedActor)
      (execute : State → AuthorizedActor → Attempt Transition) (d : D) (r : Result)
      (e : CommandError)
      → load_receipt m codec envelope d ≡ (if same then done (some r) else fail e)
      → apply m codec ids envelope authorized execute d ≡ (if same then done r else fail e, d)
  unfolding apply
  apply-repeat true envelope ids authorized execute d r e h = rw (apply, h) refl
  apply-repeat false envelope ids authorized execute d r e h = rw (apply, h) refl
