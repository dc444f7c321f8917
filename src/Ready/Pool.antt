-- ===== src/Ready/Pool.antt =====
-- What the loop of NewReadyState builds: a pool of available, valid slots, and the two counts.
use rct_hub_backend.Base.{
  ◌≡◌, refl, ℕ, true, List, [], ◌∷◌, Text, Map, none, some, lookup, insert, contains, arith, ◌==◌,
  text_Eq, text_eq, text_eq_iff, Bool-cases, inl, inr, ap, ◌∙◌,
}
use rct_hub_backend.Model.Kinds.{Mod, PoolSlotState, mod_Eq}
use rct_hub_backend.Model.Errors.{ok, >>=-eq-ok}
use rct_hub_backend.Model.State.{PoolSlot}
use rct_hub_backend.Setup.{count_mod, PoolBuild, add_slot, build_pool}
use rct_hub_backend.Validation.{
  valid_slots, valid_pool_slot, count_slots, all_available, selected_match,
}

count_mod_comm :
    (md : Mod) (v w : PoolSlot) (n : ℕ)
    → count_mod md v (count_mod md w n) ≡ count_mod md w (count_mod md v n)
count_mod_comm md v w n = elim (Bool-cases (v.slot_mod == md)) [
  | inl e ↦ elim (Bool-cases (w.slot_mod == md)) [ inl f ↦ rw (e, f) | inr f ↦ rw (e, f) ]
  | inr e ↦ elim (Bool-cases (w.slot_mod == md)) [ inl f ↦ rw (e, f) | inr f ↦ rw (e, f) ]
]

some_not_none : {w : PoolSlot} → some w ≡ none → ⊥
some_not_none h = cc

module _ (k : Text) (v : PoolSlot) where
  available-insert :
      (m : Map Text PoolSlot)
      → v.state ≡ PoolSlotState.available
      → all_available m ≡ true
      → all_available (insert k v m) ≡ true
  unfolding all_available insert
  available-insert [] a h = ground arith
  available-insert ((j, w) ∷ m) a h = ground (arith, available-insert m a)

  valid-insert :
      (m : Map Text PoolSlot)
      → valid_pool_slot k v ≡ true
      → valid_slots m ≡ true
      → valid_slots (insert k v m) ≡ true
  unfolding valid_slots insert
  valid-insert [] a h = ground arith
  valid-insert ((j, w) ∷ m) a h = ground (arith, text_eq_iff j k, valid-insert m a)

  count-insert :
      (md : Mod) (m : Map Text PoolSlot)
      → lookup k m ≡ none
      → count_slots md (insert k v m) ≡ count_mod md v (count_slots md m)
  unfolding count_slots insert lookup
  count-insert md [] h = refl
  count-insert md ((j, w) ∷ m) h = elim (Bool-cases (text_eq j k)) [
    | inl same ↦ absurd (some_not_none (rw same at h))
    | inr other ↦ rw other (
        ap (count_mod md w) (count-insert md m (rw other at h))
        ∙ count_mod_comm md w v (count_slots md m))
  ]

-- The loop's invariant.
pub record IsBuilt (b : PoolBuild) : Type 0 where
  pub available : all_available b.pool ≡ true
  pub valid : valid_slots b.pool ≡ true
  pub shiro : count_slots Mod.shiro b.pool ≡ b.shiro_count
  pub tb : count_slots Mod.tb b.pool ≡ b.tb_count

add_slot-IsBuilt :
    (slot : PoolSlot) (b : PoolBuild) {b' : PoolBuild}
    → IsBuilt b
    → add_slot slot b ≡ ok b'
    → IsBuilt b'
unfolding add_slot
add_slot-IsBuilt slot b h e =
    let added : PoolSlot = record slot { state = PoolSlotState.available } in
    ground (
      arith,
      text_eq_iff slot.id slot.id,
      available-insert slot.id added b.pool,
      valid-insert slot.id added b.pool,
      count-insert slot.id added Mod.shiro b.pool,
      count-insert slot.id added Mod.tb b.pool,
    )

pub build_pool-IsBuilt :
    (slots : List PoolSlot) (b : PoolBuild) {b' : PoolBuild}
    → IsBuilt b
    → build_pool slots b ≡ ok b'
    → IsBuilt b'
unfolding build_pool
build_pool-IsBuilt [] b h e = ground arith
build_pool-IsBuilt (slot ∷ slots) b h e =
    let (mid, added, rest) = >>=-eq-ok (add_slot slot b) (build_pool slots) e in
    build_pool-IsBuilt slots mid (add_slot-IsBuilt slot b h added) rest

pub selected_match-available :
    (m : Map Text PoolSlot) → all_available m ≡ true → selected_match m [] ≡ true
unfolding all_available selected_match contains
selected_match-available [] h = refl
selected_match-available ((k, v) ∷ m) h = ground (arith, selected_match-available m)
