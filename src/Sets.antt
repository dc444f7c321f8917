-- ===== src/Sets.antt =====
-- The two routines of internal/matchengine/engine.go that walk a list with a map of what they have
-- seen: flattenSacrificeSets and validateSurrenderEvidence, against what they are to find out.
use rct_hub_backend.Base.{
  ◌≤◌, ◌≡◌, true, false, not, ◌&&◌, ◌||◌, Bool, Text, List, [], ◌∷◌, ◌++◌, none, some,
  if◌then◌else◌, length, contains, all, Eq, ◌==◌, text_Eq, refl, sym, ap, ◌∙◌, arith, Bool-cases,
  inl, inr,
}
use rct_hub_backend.Base.Int.{int_Eq}
use rct_hub_backend.Model.State.{PlayerId, Roster}
use rct_hub_backend.Engine.Robbery.{flatten_set, flatten_from, flatten_sacrifice_sets}
use rct_hub_backend.Engine.Tiebreak.{collect_evidence, validate_surrender_evidence}

-- All the members of all the lists.
unfoldable pub concat {ℓ} : {A : Type ℓ} → List (List A) → List A
concat [] = []
concat (xs ∷ xss) = xs ++ concat xss

append_assoc {ℓ} : {A : Type ℓ} (xs ys zs : List A) → (xs ++ ys) ++ zs ≡ xs ++ (ys ++ zs)
append_assoc [] ys zs = refl
append_assoc (x ∷ xs) ys zs = ap (λ r. x ∷ r) (append_assoc xs ys zs)

append_nil {ℓ} : {A : Type ℓ} (xs : List A) → xs ++ [] ≡ xs
append_nil [] = refl
append_nil (x ∷ xs) = ap (λ r. x ∷ r) (append_nil xs)

module _ {ℓ} {A : Type ℓ} ⦃e : Eq A⦄ where
  -- No member occurs twice.
  unfoldable pub distinct : List A → Bool
  distinct [] = true
  distinct (x ∷ xs) = not (contains x xs) && distinct xs

  -- No member occurs in `seen`.
  unfoldable apart : (xs seen : List A) → Bool
  apart [] seen = true
  apart (x ∷ xs) seen = not (contains x seen) && apart xs seen

  -- Every member is new to `seen` and to those before it.
  unfoldable fresh : (xs seen : List A) → Bool
  fresh [] seen = true
  fresh (x ∷ xs) seen = not (contains x seen) && fresh xs (seen ++ x ∷ [])

  contains-++ : (a : A) (xs ys : List A) → contains a (xs ++ ys) ≡ (contains a xs || contains a ys)
  unfolding contains
  contains-++ a [] ys = refl
  contains-++ a (x ∷ xs) ys = ground (arith, contains-++ a xs ys)

  contains-snoc : (a x : A) (xs : List A) → contains a (xs ++ x ∷ []) ≡ (contains a xs || x == a)
  unfolding contains
  contains-snoc a x xs = ground (arith, contains-++ a xs (x ∷ []))

  apart-snoc :
      (xs seen : List A) (x : A)
      → apart xs (seen ++ x ∷ []) ≡ (apart xs seen && not (contains x xs))
  unfolding apart contains
  apart-snoc [] seen x = refl
  apart-snoc (y ∷ xs) seen x =
      ground (arith, apart-snoc xs seen x, contains-snoc y x seen, e.same_iff x y, e.same_iff y x)

  fresh-apart : (xs seen : List A) → fresh xs seen ≡ (apart xs seen && distinct xs)
  unfolding fresh apart distinct
  fresh-apart [] seen = refl
  fresh-apart (x ∷ xs) seen = ground (arith, fresh-apart xs (seen ++ x ∷ []), apart-snoc xs seen x)

  apart-nil : (xs : List A) → apart xs [] ≡ true
  unfolding apart contains
  apart-nil [] = refl
  apart-nil (x ∷ xs) = ground (arith, apart-nil xs)

  fresh-nil : (xs : List A) → fresh xs [] ≡ distinct xs
  fresh-nil xs = ground (arith, fresh-apart xs [], apart-nil xs)

  fresh-++ :
      (xs ys seen : List A) → fresh (xs ++ ys) seen ≡ (fresh xs seen && fresh ys (seen ++ xs))
  unfolding fresh
  fresh-++ [] ys seen = simp (append_nil seen)
  fresh-++ (x ∷ xs) ys seen =
      ground (arith, fresh-++ xs ys (seen ++ x ∷ []), append_assoc seen (x ∷ []) xs)

flatten_set_lem :
    (xs seen : List Text)
    → flatten_set xs seen ≡ (if fresh xs seen then some (seen ++ xs) else none)
unfolding flatten_set fresh
flatten_set_lem [] seen = ap some (sym (append_nil seen))
flatten_set_lem (x ∷ xs) seen =
    ground (arith, flatten_set_lem xs (seen ++ x ∷ []), append_assoc seen (x ∷ []) xs)

flatten_from_lem :
    (sets : List (List Text)) (seen : List Text)
    → flatten_from sets seen
      ≡ (if fresh (concat sets) seen then some (seen ++ concat sets) else none)
unfolding flatten_from concat fresh
flatten_from_lem [] seen = ap some (sym (append_nil seen))
flatten_from_lem (xs ∷ sets) seen = ground (
  arith,
  flatten_set_lem xs seen,
  fresh-++ xs (concat sets) seen,
  flatten_from_lem sets (seen ++ xs),
  append_assoc seen xs (concat sets),
)

-- flattenSacrificeSets joins the sets in their order where no id occurs twice in them, within one set
-- or in two, and reports an overlap otherwise.
pub flatten_sacrifice_sets-distinct :
    (sets : List (List Text))
    → flatten_sacrifice_sets sets ≡ (if distinct (concat sets) then some (concat sets) else none)
unfolding flatten_sacrifice_sets
flatten_sacrifice_sets-distinct sets =
    ground (arith, flatten_from_lem sets [], fresh-nil (concat sets))

-- What the loop of validateSurrenderEvidence keeps, whatever it has met before.
module _ (rostered : List PlayerId) where
  -- The members of `unique` are on the roster, and none of them occurs twice.
  record IsClean (unique : List PlayerId) : Type 0 where
    members : all (λ id. contains id rostered) unique ≡ true
    once : distinct unique ≡ true

  all-snoc :
      (unique : List PlayerId) (id : PlayerId)
      → all (λ i. contains i rostered) unique ≡ true
      → contains id rostered ≡ true
      → all (λ i. contains i rostered) (unique ++ id ∷ []) ≡ true
  unfolding all
  all-snoc [] id h k = ground arith
  all-snoc (x ∷ unique) id h k = ground (arith, all-snoc unique id)

  distinct-snoc :
      (unique : List PlayerId) (id : PlayerId)
      → distinct unique ≡ true
      → contains id unique ≡ false
      → distinct (unique ++ id ∷ []) ≡ true
  unfolding distinct contains
  distinct-snoc [] id h k = refl
  distinct-snoc (x ∷ unique) id h k = ground (
    arith,
    distinct-snoc unique id,
    contains-snoc x id unique,
    int_Eq.same_iff x id,
    int_Eq.same_iff id x,
  )

  collect_step :
      (x : PlayerId) (submitted unique : List PlayerId) {u : List PlayerId}
      → collect_evidence rostered (x ∷ submitted) unique ≡ some u
      → (contains x rostered ≡ true)
        × (collect_evidence rostered submitted
              (if contains x unique then unique else unique ++ x ∷ [])
            ≡ some u)
  unfolding collect_evidence
  collect_step x submitted unique h = ground arith

  grown : (x : PlayerId) (unique : List PlayerId) → List PlayerId
  grown x unique = if contains x unique then unique else unique ++ x ∷ []

  grown-IsClean :
      (x : PlayerId) (unique : List PlayerId)
      → IsClean unique
      → contains x rostered ≡ true
      → IsClean (grown x unique)
  unfolding grown
  grown-IsClean x unique c h = elim (Bool-cases (contains x unique)) [
    | inl e ↦ rw e c
    | inr e ↦
        rw e (record {
          members = all-snoc unique x c.members h;
          once = distinct-snoc unique x c.once e;
        })
  ]

  contains-grown :
      (x id : PlayerId) (unique : List PlayerId)
      → contains id (grown x unique) ≡ (contains id unique || x == id)
  unfolding grown
  contains-grown x id unique = ground (arith, contains-snoc id x unique, int_Eq.same_iff x id)

  collect_evidence-IsClean :
      (submitted unique : List PlayerId) {u : List PlayerId}
      → IsClean unique
      → collect_evidence rostered submitted unique ≡ some u
      → IsClean u
  unfolding collect_evidence grown
  collect_evidence-IsClean [] unique c h = ground (arith, c)
  collect_evidence-IsClean (x ∷ submitted) unique c h =
      let (member, rest) = collect_step x submitted unique h in
      collect_evidence-IsClean submitted (grown x unique) (grown-IsClean x unique c member) rest

  contains-collect_evidence :
      (id : PlayerId) (submitted unique : List PlayerId) {u : List PlayerId}
      → collect_evidence rostered submitted unique ≡ some u
      → contains id u ≡ (contains id unique || contains id submitted)
  unfolding collect_evidence contains grown
  contains-collect_evidence id [] unique h = ground arith
  contains-collect_evidence id (x ∷ submitted) unique h =
      let (member, rest) = collect_step x submitted unique h in
      ground (
        arith,
        contains-collect_evidence id submitted (grown x unique) rest,
        contains-grown x id unique,
      )

accepted_evidence :
    (roster : Roster) (submitted : List PlayerId) {u : List PlayerId}
    → validate_surrender_evidence roster submitted ≡ some u
    → (collect_evidence (roster.leader_id ∷ roster.player_ids) submitted [] ≡ some u)
      × (contains roster.leader_id u ≡ true)
      × (4 ≤ length u)
unfolding validate_surrender_evidence
accepted_evidence roster submitted h = ground arith

nothing-IsClean : (rostered : List PlayerId) → IsClean rostered []
unfolding all distinct
nothing-IsClean rostered = ground arith

-- The evidence of a surrender that is accepted holds the submitted players and no others, each of
-- them once; they stand on the roster, the leader is among them, and they are four at least.
pub validate_surrender_evidence-distinct :
    (roster : Roster) (submitted : List PlayerId) {u : List PlayerId}
    → validate_surrender_evidence roster submitted ≡ some u
    → (distinct u ≡ true)
      × (all (λ id. contains id (roster.leader_id ∷ roster.player_ids)) u ≡ true)
      × ((id : PlayerId) → contains id u ≡ contains id submitted)
      × (contains roster.leader_id submitted ≡ true)
      × (4 ≤ length u)
unfolding contains
validate_surrender_evidence-distinct roster submitted {u} h =
    let team = roster.leader_id ∷ roster.player_ids in
    let (collected, leader, enough) = accepted_evidence roster submitted h in
    let c = collect_evidence-IsClean team submitted [] (nothing-IsClean team) collected in
    let same : (id : PlayerId) → contains id u ≡ contains id submitted =
      λ id. contains-collect_evidence team id submitted [] collected ∙ refl in
    (c.once, c.members, same, sym (same roster.leader_id) ∙ leader, enough)
