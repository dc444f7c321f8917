-- ===== src/Base/Bytes.antt =====
-- A Go string as the list of its bytes: equality, the order of sort.Strings, and the test by which
-- strings.TrimSpace leaves nothing.
use Prim.Native.Nat.{ℕ, compare, Ordering}
use Prim.Native.Char.{code}
use Prim.Native.String.{String}
use mathlib.Core.Path.{◌≡◌}
use mathlib.Core.Logic.{◌↔◌}
use mathlib.Core.Bool.{Bool, true, false, ◌&&◌, ◌||◌}
use mathlib.Core.List.{List, [], ◌∷◌}
use native.Mathlib.Omega.{arith}
use rct_hub_backend.Base.Tests.{nat_eq, leb, if◌then◌else◌, Eq}

abbrev pub Text : Type 0
Text = List ℕ

unfoldable pub text_eq : Text → Text → Bool
text_eq [] [] = true
text_eq (a ∷ s) (b ∷ t) = nat_eq a b && text_eq s t
text_eq _ _ = false

pub text_eq_iff : (s t : Text) → (text_eq s t ≡ true) ↔ (s ≡ t)
unfolding text_eq
text_eq_iff [] [] = ground arith
text_eq_iff (a ∷ s) (b ∷ t) = ground (arith, text_eq_iff s t)
text_eq_iff [] (b ∷ t) = ground arith
text_eq_iff (a ∷ s) [] = ground arith

instance abbrev pub text_Eq : Eq Text
text_Eq = record { same = text_eq; same_iff = text_eq_iff }

abbrev pub is_empty : Text → Bool
is_empty [] = true
is_empty (_ ∷ _) = false

-- The bytes of an ASCII literal.
abbrev pub codes : String → Text
codes String.[] = []
codes (String.◌∷◌ c s) = code c ∷ codes s

-- Bytewise order, as Go compares strings.
unfoldable pub text_leb : Text → Text → Bool
text_leb [] t = true
text_leb (a ∷ s) [] = false
text_leb (a ∷ s) (b ∷ t) =
    let rest = text_leb s t in
    elim (compare a b) [ Ordering.lt ↦ true | Ordering.eq ↦ rest | Ordering.gt ↦ false ]

abbrev is_ascii_space : ℕ → Bool
is_ascii_space c = (leb 9 c && leb c 13) || nat_eq c 32

-- The white space that UTF-8 writes in two bytes: U+0085 and U+00A0.
abbrev is_space₂ : ℕ → ℕ → Bool
is_space₂ a b = nat_eq a 0xc2 && (nat_eq b 0x85 || nat_eq b 0xa0)

-- And in three: U+1680, U+2000 to U+200A, U+2028, U+2029, U+202F, U+205F and U+3000.
abbrev is_space₃ : ℕ → ℕ → ℕ → Bool
is_space₃ a b c =
    nat_eq a 0xe1 && nat_eq b 0x9a && nat_eq c 0x80
    || nat_eq a 0xe2
      && nat_eq b 0x80
      && (leb 0x80 c && leb c 0x8a || nat_eq c 0xa8 || nat_eq c 0xa9 || nat_eq c 0xaf)
    || nat_eq a 0xe2 && nat_eq b 0x81 && nat_eq c 0x9f
    || nat_eq a 0xe3 && nat_eq b 0x80 && nat_eq c 0x80

-- strings.TrimSpace(s) == "": every character of `s` is white space.
unfoldable pub is_blank : Text → Bool
is_blank [] = true
is_blank (a ∷ []) = is_ascii_space a
is_blank (a ∷ b ∷ []) =
    let rest = is_blank (b ∷ []) in if is_ascii_space a then rest else is_space₂ a b
is_blank (a ∷ b ∷ c ∷ s) =
    let rest₁ = is_blank (b ∷ c ∷ s) in
    let rest₂ = is_blank (c ∷ s) in
    let rest₃ = is_blank s in
    if is_ascii_space a then rest₁ else if is_space₂ a b then rest₂ else is_space₃ a b c && rest₃
