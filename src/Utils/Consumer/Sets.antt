-- ===== src/Utils/Consumer/Sets.antt =====
-- Sets of offsets as lists of numbers, for the tracker of src/utils/kafkaConsumer.py, and
-- dictionaries whose keys are the broker client's partitions.
use agentic_resident_crm.Prelude.{
  ℕ, ◌≤◌, Bool, true, false, not, ◌&&◌, ◌||◌, List, [], ◌∷◌, Option, none, some, if◌then◌else◌, ltb,
  ◌==◌, nat_eq, Eq, contains, keep, ◌≡◌, refl, inl, inr, arith, Bool-cases, ap, nat_beq,
  nat_beq_iff,
}

abbrev pub add : ℕ → List ℕ → List ℕ
add o xs = if contains xs o then xs else o ∷ xs

abbrev pub discard : ℕ → List ℕ → List ℕ
discard o xs = keep (λ x. not (x == o)) xs

abbrev pub minus : List ℕ → List ℕ → List ℕ
minus xs ys = keep (λ x. not (contains ys x)) xs

-- `min` and `max` of a set that is not empty.
abbrev pub lowest : ℕ → List ℕ → ℕ
lowest x [] = x
lowest x (y ∷ ys) = let rest = lowest y ys in if ltb x rest then x else rest

abbrev pub highest : ℕ → List ℕ → ℕ
highest x [] = x
highest x (y ∷ ys) = let rest = highest y ys in if ltb rest x then x else rest

pub contains-add : (o a : ℕ) (xs : List ℕ) → contains (add o xs) a ≡ (o == a || contains xs a)
contains-add o a xs = ground arith

pub contains-keep :
    (p : ℕ → Bool) (xs : List ℕ) (a : ℕ) → contains (keep p xs) a ≡ (contains xs a && p a)
contains-keep p [] a = refl
contains-keep p (x ∷ xs) a = elim (Bool-cases (nat_beq x a)) [
  | inl e ↦ ground (arith, ap p ((nat_beq_iff x a).0 e), contains-keep p xs a)
  | inr e ↦ ground (arith, contains-keep p xs a)
]

pub lowest-contained : (x : ℕ) (xs : List ℕ) → contains (x ∷ xs) (lowest x xs) ≡ true
lowest-contained x [] = ground arith
lowest-contained x (y ∷ ys) = ground (arith, lowest-contained y ys)

pub lowest-le : (x : ℕ) (xs : List ℕ) (a : ℕ) → contains (x ∷ xs) a ≡ true → lowest x xs ≤ a
lowest-le x [] a h = ground arith
lowest-le x (y ∷ ys) a h = ground (arith, lowest-le y ys a)

pub highest-contained : (x : ℕ) (xs : List ℕ) → contains (x ∷ xs) (highest x xs) ≡ true
highest-contained x [] = ground arith
highest-contained x (y ∷ ys) = ground (arith, highest-contained y ys)

pub le-highest : (x : ℕ) (xs : List ℕ) (a : ℕ) → contains (x ∷ xs) a ≡ true → a ≤ highest x xs
le-highest x [] a h = ground arith
le-highest x (y ∷ ys) a h = ground (arith, le-highest y ys a)

pub nothing_contained : (xs : List ℕ) → ((a : ℕ) → contains xs a ≡ false) → xs ≡ []
nothing_contained [] h = refl
nothing_contained (x ∷ xs) h = ground (arith, h x)

module _ {K : Type 0} {V : Type 0} ⦃eq : Eq K⦄ where
  abbrev pub find : K → List (K × V) → Option V
  find key [] = none
  find key ((first, value) ∷ rest) = if first == key then some value else find key rest

  -- The pair keeps its place where the key is there, and comes last where it is not.
  abbrev pub put : K → V → List (K × V) → List (K × V)
  put key value [] = (key, value) ∷ []
  put key value ((first, old) ∷ rest) =
      if first == key then (key, value) ∷ rest else (first, old) ∷ put key value rest

  abbrev pub remove : K → List (K × V) → List (K × V)
  remove key entries = keep (λ e. not (e.0 == key)) entries

  abbrev pub keys : List (K × V) → List K
  keys [] = []
  keys ((key, _) ∷ rest) = key ∷ keys rest

  pub find-put :
      (key asked : K) (value : V) (entries : List (K × V))
      → find asked (put key value entries)
        ≡ (if key == asked then some value else find asked entries)
  find-put key asked value [] = refl
  find-put key asked value ((first, old) ∷ rest) = ground (
    arith,
    find-put key asked value rest,
    eq.same_iff first key,
    eq.same_iff first asked,
    eq.same_iff key asked,
  )

  pub find-remove :
      (key asked : K) (entries : List (K × V))
      → find asked (remove key entries) ≡ (if key == asked then none else find asked entries)
  find-remove key asked [] = ground arith
  find-remove key asked ((first, old) ∷ rest) = ground (
    arith,
    find-remove key asked rest,
    eq.same_iff first key,
    eq.same_iff first asked,
    eq.same_iff key asked,
  )
