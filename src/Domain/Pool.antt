-- ===== src/Domain/Pool.antt =====
-- internal/domain/pool.go: the text of a pool slot and its parser, with what they use of Go's strings
-- and strconv (strings.Cut, strings.HasPrefix, strings.Contains and strconv.Atoi).
use rct_hub_backend.Base.{
  ℕ, suc, zero, ◌+◌, ◌-◌, ◌*◌, ◌/◌, ◌%◌, Bool, not, ◌&&◌, ◌||◌, Text, List, [], ◌∷◌, ◌++◌, Option,
  none, some, ◌==◌, if◌then◌else◌, text_Eq, nat_Eq, contains, leb, is_empty, codes,
}
use rct_hub_backend.Base.Int.{ℤ, pos, negsuc, leb_ℤ, max_int64}

-- A PieceMod is any string here.
pub record NamedSlot : Type 0 where
  pub slot_mod : Text
  pub index : ℤ

abbrev pub dash : ℕ
dash = 45

abbrev pub compact_mods : List Text
compact_mods = codes "NM" ∷ codes "HD" ∷ codes "HR" ∷ codes "DT" ∷ codes "FM" ∷ []

abbrev pub known_mods : List Text
known_mods =
    codes "NM" ∷ codes "HD" ∷ codes "HR" ∷ codes "DT" ∷ codes "FM" ∷ codes "Shiro" ∷ codes "TB" ∷ []

-- The loop of itoa: the buffer has room for twenty bytes.
unfoldable pub digits : ℕ → ℕ → Text → Text
digits zero n buf = buf
digits (suc rounds) n buf =
    let rest = digits rounds (n / 10) ((48 + n % 10) ∷ buf) in if n == 0 then buf else rest

-- The negation of the least int is itself, which is not above 0.
unfoldable pub itoa : ℤ → Text
itoa (pos n) = if n == 0 then codes "0" else digits 20 n []
itoa (negsuc n) = dash ∷ (if n == max_int64 then [] else digits 20 (suc n) [])

unfoldable pub slot_text : NamedSlot → Text
slot_text slot = slot.slot_mod ++ dash ∷ itoa slot.index

pub record Parts : Type 0 where
  pub before : Text
  pub after : Text

-- strings.Cut at a dash.
unfoldable pub cut : Text → Option Parts
cut [] = none
cut (c ∷ s) =
    let rest = cut s in
    if c == dash then some (record { before = []; after = s }) else elim rest [
      | none ↦ none
      | some parts ↦ some (record { before = c ∷ parts.before; after = parts.after })
    ]

-- What follows a prefix, if the string has it.
unfoldable pub strip : Text → Text → Option Text
strip [] s = some s
strip (p ∷ prefix) [] = none
strip (p ∷ prefix) (c ∷ s) = let rest = strip prefix s in if p == c then rest else none

-- The loop over the mods of compact ids.
unfoldable pub compact : List Text → Text → Option Parts
compact [] s = none
compact (prefix ∷ prefixes) s =
    let rest = compact prefixes s in
    elim (strip prefix s) [
      | none ↦ rest
      | some [] ↦ rest
      | some (c ∷ after) ↦ some (record { before = prefix; after = c ∷ after })
    ]

-- The digits of strconv.Atoi, from the value so far.
unfoldable pub value : ℕ → Text → Option ℕ
value v [] = some v
value v (c ∷ s) =
    let rest = value (v * 10 + (c - 48)) s in if leb 48 c && leb c 57 then rest else none

unfoldable pub unsigned : Text → Option ℕ
unsigned [] = none
unsigned (c ∷ s) = value 0 (c ∷ s)

abbrev pub in_range : Option ℕ → Option ℤ
in_range none = none
in_range (some n) = if leb n max_int64 then some (pos n) else none

abbrev pub negated : Option ℕ → Option ℤ
negated none = none
negated (some zero) = some (pos 0)
negated (some (suc n)) = if leb n max_int64 then some (negsuc n) else none

-- strconv.Atoi: an optional sign, at least one digit, and a value that fits an int.
unfoldable pub atoi : Text → Option ℤ
atoi [] = none
atoi (c ∷ s) =
    let positive = in_range (unsigned s) in
    let negative = negated (unsigned s) in
    let plain = in_range (unsigned (c ∷ s)) in
    if c == 43 then positive else if c == dash then negative else plain

unfoldable pub is_known_text : Text → Bool
is_known_text t = contains t known_mods

abbrev pub checked_index : Text → Option ℤ → Option NamedSlot
checked_index t none = none
checked_index t (some i) =
    if leb_ℤ i (pos 0) then none else some (record { slot_mod = t; index = i })

unfoldable pub parse_parts : Parts → Option NamedSlot
parse_parts parts =
    if is_empty parts.before || is_empty parts.after || contains dash parts.after
    then none
    else if not (is_known_text parts.before)
    then none
    else checked_index parts.before (atoi parts.after)

-- A string without a dash: a compact id, or the whole name of a mod with one slot.
unfoldable pub parse_compact : Text → Option NamedSlot
parse_compact s = elim (compact compact_mods s) [
  | some parts ↦ parse_parts parts
  | none ↦
      if s == codes "TB" || s == codes "Shiro"
      then some (record { slot_mod = s; index = pos 1 })
      else none
]

unfoldable pub parse_pool_slot : Text → Option NamedSlot
parse_pool_slot s = elim (cut s) [ some parts ↦ parse_parts parts | none ↦ parse_compact s ]
