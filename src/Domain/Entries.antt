-- ===== src/Domain/Entries.antt =====
-- ValidateEntries of internal/domain/mappool.go against the rules that its comment states.
use rct_hub_backend.Base.{
  ◌≡◌, ◌↔◌, inl, inr, ℕ, suc, Bool, true, false, not, ◌&&◌, ◌||◌, List, [], ◌∷◌, ◌++◌, ◌==◌,
  contains, arith, if◌then◌else◌, Bool-cases,
}
use rct_hub_backend.Base.Int.{pos, leb_ℤ}
use rct_hub_backend.Model.Kinds.{Mod, mod_Eq}
use rct_hub_backend.Domain.Mappool.{
  MappoolEntry, PoolSlot, slot_Eq, slot_of, is_known_piece_mod, no_beatmap, has_beatmap,
  entry_problems, marks, validate_from, validate_entries, has_tb_entry, Field,
}

-- An entry by itself: a known mod, a positive index, and a beatmap exactly if it is not Shiro.
abbrev pub entry_valid : MappoolEntry → Bool
entry_valid entry =
    is_known_piece_mod entry.entry_mod
    && not (leb_ℤ entry.index (pos 0))
    && (if entry.entry_mod == Mod.shiro
        then not (has_beatmap entry.beatmap_id)
        else not (no_beatmap entry.beatmap_id))

-- Every entry is valid, and no slot is named twice, or is among those given.
unfoldable pub slots_valid : List PoolSlot → List MappoolEntry → Bool
slots_valid seen [] = true
slots_valid seen (entry ∷ entries) =
    entry_valid entry
    && not (contains (slot_of entry) seen)
    && slots_valid (slot_of entry ∷ seen) entries

entry_problems-none :
    (i : ℕ) (seen : List PoolSlot) (entry : MappoolEntry)
    → (entry_problems i seen entry ≡ [])
      ↔ ((entry_valid entry && not (contains (slot_of entry) seen)) ≡ true)
unfolding entry_problems is_known_piece_mod
entry_problems-none i seen entry = ground arith

++-none : (xs ys : List Field) → ((xs ++ ys) ≡ []) ↔ ((xs ≡ []) × (ys ≡ []))
++-none [] ys = ground arith
++-none (x ∷ xs) ys = ground arith

valid-marks :
    (seen : List PoolSlot) (entry : MappoolEntry)
    → (entry_valid entry && not (contains (slot_of entry) seen)) ≡ true
    → marks seen entry ≡ true
valid-marks seen entry h = ground arith

validate_from-slots_valid :
    (i : ℕ) (seen : List PoolSlot) (has_tb : Bool) (entries : List MappoolEntry)
    → (validate_from i seen has_tb entries ≡ [])
      ↔ ((slots_valid seen entries && (has_tb || has_tb_entry entries)) ≡ true)
unfolding validate_from slots_valid has_tb_entry
validate_from-slots_valid i seen true [] = ground arith
validate_from-slots_valid i seen false [] = ground arith
validate_from-slots_valid i seen has_tb (entry ∷ entries) =
    let problems = entry_problems-none i seen entry in
    elim (Bool-cases (entry_valid entry && not (contains (slot_of entry) seen))) [
      | inl valid ↦
          let new = valid-marks seen entry valid in
          let tb = has_tb || entry.entry_mod == Mod.tb in
          let rest = validate_from-slots_valid (suc i) (slot_of entry ∷ seen) tb entries in
          let split =
            ++-none (entry_problems i seen entry)
              (validate_from (suc i) (slot_of entry ∷ seen) tb entries) in
          rw new (ground (arith, problems, rest, split, valid))
      | inr invalid ↦
          let mark = marks seen entry in
          let split = ++-none (entry_problems i seen entry) (
            validate_from (suc i) (if mark then slot_of entry ∷ seen else seen)
              (has_tb || (mark && entry.entry_mod == Mod.tb)) entries) in
          ground (arith, problems, split, invalid)
    ]

-- ValidateEntries finds nothing wrong with a mappool exactly if every entry has a known mod, a positive
-- index, and a beatmap unless it is Shiro, which has none; no two entries have the same slot; and there
-- is a tiebreaker.
pub validate_entries-slots_valid :
    (entries : List MappoolEntry)
    → (validate_entries entries ≡ []) ↔ ((slots_valid [] entries && has_tb_entry entries) ≡ true)
unfolding validate_entries
validate_entries-slots_valid entries = validate_from-slots_valid 0 [] false entries
