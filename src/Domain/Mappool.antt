-- ===== src/Domain/Mappool.antt =====
-- internal/domain/mappool.go: the entries of a mappool, their checks and their order. A PieceMod has
-- the constants of the engine's Mod; the program compares any other string only with these.
use rct_hub_backend.Base.{
  ◌≡◌, ℕ, suc, Bool, true, false, not, ◌&&◌, ◌||◌, List, [], ◌∷◌, ◌++◌, Option, none, some, ◌==◌,
  keep, if◌then◌else◌, Eq, contains, arith, ◌↔◌,
}
use rct_hub_backend.Base.Int.{ℤ, pos, leb_ℤ, ltb_ℤ, int_eq, int_eq_iff, int_Eq}
use rct_hub_backend.Model.Kinds.{Mod, mod_eq, mod_eq_iff, mod_Eq}

pub record MappoolEntry : Type 0 where
  pub beatmap_id : Option ℤ
  pub entry_mod : Mod
  pub index : ℤ
  pub selector_id : Option ℤ
  pub skill : Option (List ℕ)

-- PoolSlot of pool.go, the key of the map `seen`.
pub record PoolSlot : Type 0 where
  pub slot_mod : Mod
  pub index : ℤ

abbrev pub slot_eq : PoolSlot → PoolSlot → Bool
slot_eq a b = mod_eq a.slot_mod b.slot_mod && int_eq a.index b.index

pub slot_eq_iff : (a b : PoolSlot) → (slot_eq a b ≡ true) ↔ (a ≡ b)
slot_eq_iff a b = ground (arith, mod_eq_iff a.slot_mod b.slot_mod, int_eq_iff a.index b.index)

instance abbrev pub slot_Eq : Eq PoolSlot
slot_Eq = record { same = slot_eq; same_iff = slot_eq_iff }

abbrev pub slot_of : MappoolEntry → PoolSlot
slot_of entry = record { slot_mod = entry.entry_mod; index = entry.index }

unfoldable pub is_known_piece_mod : Mod → Bool
is_known_piece_mod Mod.unknown = false
is_known_piece_mod _ = true

-- The field of an entry that a problem names.
pub data Field : Type 0 where
  entry_mod index beatmap_id : ℕ → Field
  missing_tb : Field

-- entry.BeatmapID == nil || *entry.BeatmapID <= 0
abbrev pub no_beatmap : Option ℤ → Bool
no_beatmap none = true
no_beatmap (some id) = leb_ℤ id (pos 0)

abbrev pub has_beatmap : Option ℤ → Bool
has_beatmap none = false
has_beatmap (some id) = true

-- What the loop finds wrong with an entry, given the slots seen before.
unfoldable pub entry_problems : ℕ → List PoolSlot → MappoolEntry → List Field
entry_problems i seen entry =
    if not (is_known_piece_mod entry.entry_mod)
    then Field.entry_mod i ∷ []
    else if leb_ℤ entry.index (pos 0)
    then Field.index i ∷ []
    else if contains (slot_of entry) seen
    then Field.index i ∷ []
    else if entry.entry_mod == Mod.shiro
    then (if has_beatmap entry.beatmap_id then Field.beatmap_id i ∷ [] else [])
    else if no_beatmap entry.beatmap_id
    then Field.beatmap_id i ∷ []
    else []

-- The entry gets past the check of its slot, which marks the slot as seen.
abbrev pub marks : List PoolSlot → MappoolEntry → Bool
marks seen entry =
    is_known_piece_mod entry.entry_mod
    && not (leb_ℤ entry.index (pos 0))
    && not (contains (slot_of entry) seen)

-- The loop of ValidateEntries from an index on, with its end.
unfoldable pub validate_from :
    ℕ → (seen : List PoolSlot) (has_tb : Bool) → List MappoolEntry → List Field
validate_from i seen true [] = []
validate_from i seen false [] = Field.missing_tb ∷ []
validate_from i seen has_tb (entry ∷ entries) =
    let new = marks seen entry in
    let rest =
      validate_from (suc i) (if new then slot_of entry ∷ seen else seen)
        (has_tb || (new && entry.entry_mod == Mod.tb)) entries in
    entry_problems i seen entry ++ rest

unfoldable pub validate_entries : List MappoolEntry → List Field
validate_entries entries = validate_from 0 [] false entries

unfoldable pub has_tb_entry : List MappoolEntry → Bool
has_tb_entry [] = false
has_tb_entry (entry ∷ entries) = entry.entry_mod == Mod.tb || has_tb_entry entries

-- The inner loop of SortedEntries: the entry at `j` moves down past greater ones. The entries before
-- it stand last one first.
unfoldable pub move_down : MappoolEntry → List MappoolEntry → List MappoolEntry
move_down entry [] = entry ∷ []
move_down entry (other ∷ before) =
    let rest = move_down entry before in
    if ltb_ℤ entry.index other.index then other ∷ rest else entry ∷ other ∷ before

-- The outer loop: the sorted entries, last one first, and those that are left.
unfoldable pub sort_group : (sorted group : List MappoolEntry) → List MappoolEntry
sort_group sorted [] = sorted
sort_group sorted (entry ∷ group) = sort_group (move_down entry sorted) group

unfoldable pub reversed : List MappoolEntry → (tail : List MappoolEntry) → List MappoolEntry
reversed [] tail = tail
reversed (entry ∷ entries) tail = reversed entries (entry ∷ tail)

abbrev pub has_mod : Mod → MappoolEntry → Bool
has_mod m entry = entry.entry_mod == m

unfoldable pub sorted_group : Mod → List MappoolEntry → List MappoolEntry
sorted_group m entries = reversed (sort_group [] (keep (has_mod m) entries)) []

-- The loop over the mods in their order.
unfoldable pub sorted_in : List Mod → List MappoolEntry → List MappoolEntry
sorted_in [] entries = []
sorted_in (m ∷ mods) entries = sorted_group m entries ++ sorted_in mods entries

abbrev pub mod_order : List Mod
mod_order = Mod.nm ∷ Mod.hd ∷ Mod.hr ∷ Mod.dt ∷ Mod.fm ∷ Mod.shiro ∷ Mod.tb ∷ []

unfoldable pub sorted_entries : List MappoolEntry → List MappoolEntry
sorted_entries entries = sorted_in mod_order entries
