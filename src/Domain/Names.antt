-- ===== src/Domain/Names.antt =====
-- The text of a pool slot of internal/domain/pool.go, read back by ParsePoolSlot.
use rct_hub_backend.Base.{
  ◌≡◌, refl, ℕ, suc, zero, ◌+◌, ◌/◌, ◌%◌, ◌^◌, ◌<◌, ◌≤◌, Bool, true, false, not, ◌&&◌, Text, List,
  [], ◌∷◌, ◌++◌, none, some, text_Eq, nat_Eq, text_eq_iff, text_eq, contains, all, is_empty, arith,
}
use rct_hub_backend.Base.Int.{pos, max_int64}
use rct_hub_backend.Domain.Pool.{
  dash, known_mods, compact_mods, digits, itoa, slot_text, cut, strip, compact, value, unsigned,
  atoi, is_known_text, parse_parts, parse_compact, parse_pool_slot,
}

-- value undoes digits, before whatever is in the buffer.
value-digits :
    (rounds n : ℕ) (buf : Text) → n < 10 ^ rounds → value 0 (digits rounds n buf) ≡ value n buf
unfolding value digits
value-digits zero n buf h = ground arith
value-digits (suc rounds) n buf h =
    let rest = value-digits rounds (n / 10) ((48 + n % 10) ∷ buf) (ground (arith, h)) in
    ground (arith, rest)

-- digits writes digits only.
digits-dash :
    (rounds n : ℕ) (buf : Text)
    → contains dash buf ≡ false
    → contains dash (digits rounds n buf) ≡ false
unfolding contains digits
digits-dash zero n buf h = h
digits-dash (suc rounds) n buf h =
    let rest = digits-dash rounds (n / 10) ((48 + n % 10) ∷ buf) (ground (arith, h)) in
    ground (arith, rest, h)

cut-dash :
    (t s : Text)
    → contains dash t ≡ false
    → cut (t ++ dash ∷ s) ≡ some (record { before = t; after = s })
unfolding contains cut
cut-dash [] s h = refl
cut-dash (c ∷ t) s h = let rest = cut-dash t s (ground (arith, h)) in ground (arith, rest, h)

abbrev named : Text → Bool
named t = not (contains dash t) && not (is_empty t)

known-named :
    (t : Text) (ts : List Text) → all named ts ≡ true → contains t ts ≡ true → named t ≡ true
unfolding contains all
known-named t [] every h = ground (arith, h)
known-named t (u ∷ ts) every h =
    let rest = known-named t ts (ground (arith, every)) in
    ground (arith, rest, every, h, text_eq_iff u t)

digits-nonempty :
    (rounds n : ℕ) (buf : Text) → is_empty buf ≡ false → is_empty (digits rounds n buf) ≡ false
unfolding digits
digits-nonempty zero n buf h = h
digits-nonempty (suc rounds) n buf h =
    let rest = digits-nonempty rounds (n / 10) ((48 + n % 10) ∷ buf) refl in ground (arith, rest, h)

itoa-nonempty : (n : ℕ) → is_empty (itoa (pos (suc n))) ≡ false
unfolding itoa digits
itoa-nonempty n = ground (arith, digits-nonempty 19 (suc n / 10) ((48 + suc n % 10) ∷ []) refl)

itoa-dash : (n : ℕ) → contains dash (itoa (pos (suc n))) ≡ false
unfolding itoa contains
itoa-dash n = ground (arith, digits-dash 20 (suc n) [] refl)

value-itoa : (n : ℕ) → n < max_int64 → value 0 (itoa (pos (suc n))) ≡ some (suc n)
unfolding itoa value
value-itoa n bound = ground (arith, value-digits 20 (suc n) [] (ground (arith, bound)))

atoi-value :
    (s : Text) (v : ℕ)
    → is_empty s ≡ false
    → value 0 s ≡ some v
    → v ≤ max_int64
    → atoi s ≡ some (pos v)
unfolding atoi unsigned value
atoi-value [] v some_digit h bound = ground arith
atoi-value (c ∷ s) v some_digit h bound = ground arith

atoi-itoa : (n : ℕ) → n < max_int64 → atoi (itoa (pos (suc n))) ≡ some (pos (suc n))
atoi-itoa n bound =
    atoi-value (itoa (pos (suc n))) (suc n) (itoa-nonempty n) (value-itoa n bound)
      (ground (arith, bound))

parse_parts-itoa :
    (t : Text) (n : ℕ)
    → is_known_text t ≡ true
    → named t ≡ true
    → n < max_int64
    → parse_parts (record { before = t; after = itoa (pos (suc n)) })
      ≡ some (record { slot_mod = t; index = pos (suc n) })
unfolding parse_parts
parse_parts-itoa t n known is_named bound =
    ground (arith, known, is_named, itoa-nonempty n, itoa-dash n, atoi-itoa n bound)

is_known_text-named : (t : Text) → is_known_text t ≡ true → named t ≡ true
unfolding is_known_text all contains
is_known_text-named t known = known-named t known_mods refl known

-- A slot of a known mod with an index from 1 to the greatest int is what ParsePoolSlot reads in its
-- String.
pub parse_pool_slot-slot_text :
    (t : Text) (n : ℕ)
    → is_known_text t ≡ true
    → n < max_int64
    → parse_pool_slot (slot_text (record { slot_mod = t; index = pos (suc n) }))
      ≡ some (record { slot_mod = t; index = pos (suc n) })
unfolding parse_pool_slot slot_text
parse_pool_slot-slot_text t n known bound =
    let is_named = is_known_text-named t known in
    ground (
      arith,
      cut-dash t (itoa (pos (suc n))) (ground (arith, is_named)),
      parse_parts-itoa t n known is_named bound,
    )

cut-none : (s : Text) → contains dash s ≡ false → cut s ≡ none
unfolding contains cut
cut-none [] h = refl
cut-none (c ∷ s) h = let rest = cut-none s (ground (arith, h)) in ground (arith, rest, h)

contains-append :
    (c : ℕ) (s t : Text) → contains c s ≡ false → contains c t ≡ false → contains c (s ++ t) ≡ false
unfolding contains
contains-append c [] t h k = k
contains-append c (d ∷ s) t h k =
    let rest = contains-append c s t (ground (arith, h)) k in ground (arith, rest, h)

-- A compact id has its mod and the rest as its parts.
compact-parts :
    (t : Text) (c : ℕ) (s : Text)
    → contains t compact_mods ≡ true
    → compact compact_mods (t ++ c ∷ s) ≡ some (record { before = t; after = c ∷ s })
unfolding contains compact strip text_eq
compact-parts t c s h = ground arith

compact-itoa :
    (t s : Text)
    → contains t compact_mods ≡ true
    → is_empty s ≡ false
    → compact compact_mods (t ++ s) ≡ some (record { before = t; after = s })
compact-itoa t [] h nonempty = ground (arith, nonempty)
compact-itoa t (c ∷ s) h nonempty = compact-parts t c s h

compact_mods-known : (t : Text) → contains t compact_mods ≡ true → is_known_text t ≡ true
unfolding is_known_text contains
compact_mods-known t h = ground (arith, h)

-- A mod of compact ids directly followed by an index from 1 to the greatest int is read as that slot.
pub parse_pool_slot-compact :
    (t : Text) (n : ℕ)
    → contains t compact_mods ≡ true
    → n < max_int64
    → parse_pool_slot (t ++ itoa (pos (suc n)))
      ≡ some (record { slot_mod = t; index = pos (suc n) })
unfolding parse_pool_slot parse_compact
parse_pool_slot-compact t n h bound =
    let known = compact_mods-known t h in
    let is_named = is_known_text-named t known in
    ground (
      arith,
      cut-none (t ++ itoa (pos (suc n)))
          (contains-append dash t (itoa (pos (suc n))) (ground (arith, is_named)) (itoa-dash n)),
      compact-itoa t (itoa (pos (suc n))) h (itoa-nonempty n),
      parse_parts-itoa t n known is_named bound,
    )
