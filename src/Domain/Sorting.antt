-- ===== src/Domain/Sorting.antt =====
-- SortedEntries of internal/domain/mappool.go: nothing is lost or doubled, and every group ascends.
use rct_hub_backend.Base.{
  ◌≡◌, refl, ℕ, ◌+◌, Bool, true, ◌&&◌, List, [], ◌∷◌, ◌++◌, keep, arith, if◌then◌else◌, Bool-cases,
  inl, inr,
}
use rct_hub_backend.Base.Int.{ℤ, leb_ℤ, ltb_ℤ}
use rct_hub_backend.Model.Kinds.{Mod, mod_Eq}
use rct_hub_backend.Domain.Mappool.{
  MappoolEntry, is_known_piece_mod, move_down, sort_group, reversed, has_mod, sorted_group,
  sorted_in, sorted_entries, mod_order,
}

-- How many entries pass a test.
unfoldable pub count : (MappoolEntry → Bool) → List MappoolEntry → ℕ
count p [] = 0
count p (x ∷ xs) = (if p x then 1 else 0) + count p xs

module _ (p : MappoolEntry → Bool) where
  count-++ : (xs ys : List MappoolEntry) → count p (xs ++ ys) ≡ count p xs + count p ys
  unfolding count
  count-++ [] ys = ground arith
  count-++ (x ∷ xs) ys = let rest = count-++ xs ys in ground (arith, rest)

  count-move_down :
      (x : MappoolEntry) (before : List MappoolEntry)
      → count p (move_down x before) ≡ count p (x ∷ before)
  unfolding count move_down
  count-move_down x [] = ground arith
  count-move_down x (y ∷ before) = let rest = count-move_down x before in ground (arith, rest)

  count-sort_group :
      (sorted group : List MappoolEntry)
      → count p (sort_group sorted group) ≡ count p sorted + count p group
  unfolding count sort_group
  count-sort_group sorted [] = ground arith
  count-sort_group sorted (x ∷ group) =
      let rest = count-sort_group (move_down x sorted) group in
      ground (arith, rest, count-move_down x sorted)

  count-reversed :
      (xs tail : List MappoolEntry) → count p (reversed xs tail) ≡ count p xs + count p tail
  unfolding count reversed
  count-reversed [] tail = ground arith
  count-reversed (x ∷ xs) tail = let rest = count-reversed xs (x ∷ tail) in ground (arith, rest)

  count-keep :
      (q : MappoolEntry → Bool) (xs : List MappoolEntry)
      → count p (keep q xs) ≡ count (λ x. q x && p x) xs
  unfolding count keep
  count-keep q [] = ground arith
  count-keep q (x ∷ xs) = let rest = count-keep q xs in ground (arith, rest)

  count-sorted_group :
      (m : Mod) (xs : List MappoolEntry)
      → count p (sorted_group m xs) ≡ count (λ x. has_mod m x && p x) xs
  unfolding sorted_group count
  count-sorted_group m xs =
      let kept = keep (has_mod m) xs in
      ground (
        arith,
        count-reversed (sort_group [] kept) [],
        count-sort_group [] kept,
        count-keep (has_mod m) xs,
      )

  -- The sum over the mods.
  unfoldable total : List Mod → List MappoolEntry → ℕ
  total [] xs = 0
  total (m ∷ mods) xs = count (λ x. has_mod m x && p x) xs + total mods xs

  count-sorted_in :
      (mods : List Mod) (xs : List MappoolEntry) → count p (sorted_in mods xs) ≡ total mods xs
  unfolding sorted_in total count
  count-sorted_in [] xs = refl
  count-sorted_in (m ∷ mods) xs =
      let rest = count-sorted_in mods xs in
      ground
        (arith, rest, count-++ (sorted_group m xs) (sorted_in mods xs), count-sorted_group m xs)

  count-mods :
      (xs : List MappoolEntry)
      → count (λ x. has_mod Mod.nm x && p x) xs
          + count (λ x. has_mod Mod.hd x && p x) xs
          + count (λ x. has_mod Mod.hr x && p x) xs
          + count (λ x. has_mod Mod.dt x && p x) xs
          + count (λ x. has_mod Mod.fm x && p x) xs
          + count (λ x. has_mod Mod.shiro x && p x) xs
          + count (λ x. has_mod Mod.tb x && p x) xs
        ≡ count (λ x. is_known_piece_mod x.entry_mod && p x) xs
  unfolding count is_known_piece_mod
  count-mods [] = refl
  count-mods (x ∷ xs) = let rest = count-mods xs in ground (arith, rest)

  -- Whatever is counted among the sorted entries, there is as much of it among the entries with a known
  -- mod: no such entry is lost or doubled, and the others are left out.
  pub count-sorted_entries :
      (xs : List MappoolEntry)
      → count p (sorted_entries xs) ≡ count (λ x. is_known_piece_mod x.entry_mod && p x) xs
  unfolding sorted_entries total
  count-sorted_entries xs = ground (arith, count-sorted_in mod_order xs, count-mods xs)

-- Every entry's index is at most the next one's, and the other way round.
abbrev pub starts_from : ℤ → List MappoolEntry → Bool
starts_from i [] = true
starts_from i (x ∷ xs) = leb_ℤ i x.index

abbrev pub starts_below : ℤ → List MappoolEntry → Bool
starts_below i [] = true
starts_below i (x ∷ xs) = leb_ℤ x.index i

unfoldable pub ascending : List MappoolEntry → Bool
ascending [] = true
ascending (x ∷ xs) = starts_from x.index xs && ascending xs

unfoldable pub descending : List MappoolEntry → Bool
descending [] = true
descending (x ∷ xs) = starts_below x.index xs && descending xs

starts_below-move_down :
    (i : ℤ) (x : MappoolEntry) (before : List MappoolEntry)
    → leb_ℤ x.index i ≡ true
    → starts_below i before ≡ true
    → starts_below i (move_down x before) ≡ true
unfolding move_down
starts_below-move_down i x [] h k = ground arith
starts_below-move_down i x (y ∷ before) h k = ground arith

descending-move_down :
    (x : MappoolEntry) (before : List MappoolEntry)
    → descending before ≡ true
    → descending (move_down x before) ≡ true
unfolding descending move_down
descending-move_down x [] h = ground arith
descending-move_down x (y ∷ before) h =
    let rest = descending-move_down x before (ground (arith, h)) in
    elim (Bool-cases (ltb_ℤ x.index y.index)) [
      | inl less ↦
          let below =
            starts_below-move_down y.index x before (ground (arith, less)) (ground (arith, h)) in
          rw less (ground (arith, rest, below))
      | inr more ↦ rw more (ground (arith, h, more))
    ]

descending-sort_group :
    (sorted group : List MappoolEntry)
    → descending sorted ≡ true
    → descending (sort_group sorted group) ≡ true
unfolding sort_group
descending-sort_group sorted [] h = h
descending-sort_group sorted (x ∷ group) h =
    descending-sort_group (move_down x sorted) group (descending-move_down x sorted h)

-- The entries before go up to the entries after them.
abbrev joins : List MappoolEntry → List MappoolEntry → Bool
joins [] tail = true
joins (x ∷ xs) tail = starts_from x.index tail

joins-none : (xs : List MappoolEntry) → joins xs [] ≡ true
joins-none [] = refl
joins-none (x ∷ xs) = refl

ascending-reversed :
    (xs tail : List MappoolEntry)
    → descending xs ≡ true
    → ascending tail ≡ true
    → joins xs tail ≡ true
    → ascending (reversed xs tail) ≡ true
unfolding reversed descending ascending
ascending-reversed [] tail down up j = up
ascending-reversed (x ∷ []) tail down up j = ground arith
ascending-reversed (x ∷ y ∷ xs) tail down up j =
    ascending-reversed (y ∷ xs) (x ∷ tail) (ground (arith, down)) (ground (arith, up, j))
      (ground (arith, down))

-- The entries of a mod come out with ascending indices.
pub sorted_group-ascending :
    (m : Mod) (xs : List MappoolEntry) → ascending (sorted_group m xs) ≡ true
unfolding sorted_group descending ascending
sorted_group-ascending m xs =
    let down = descending-sort_group [] (keep (has_mod m) xs) refl in
    ascending-reversed (sort_group [] (keep (has_mod m) xs)) [] down refl
      (joins-none (sort_group [] (keep (has_mod m) xs)))
