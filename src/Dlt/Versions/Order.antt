-- ===== src/Dlt/Versions/Order.antt =====
-- What `compare` of src/dlt/versions.py orders: the padded comparison of cores agrees with one
-- that reads a missing component as 0, and the strict order is transitive.
use agentic_resident_crm.Prelude.{
  ℕ, suc, ◌-◌, max, List, [], ◌∷◌, ◌++◌, ◌==◌, nat_eq, if◌then◌else◌, ltb, length, replicate, ◌≡◌,
  ◌≢◌, refl, ap, arith,
}
use agentic_resident_crm.Dlt.Versions.Parse.{Version}
use agentic_resident_crm.Dlt.Versions.Compare.{
  Sign, less, equal, greater, same_tuple, tuple_lt, compare_builds, compare_snapshots,
  compare_cores, compare_versions,
}

-- The comparison component by component, where a missing component reads 0.
abbrev pub lex : List ℕ → List ℕ → Sign
lex [] [] = equal
lex [] (y ∷ ys) = let rest = lex [] ys in if 0 == y then rest else less
lex (x ∷ xs) [] = let rest = lex xs [] in if x == 0 then rest else greater
lex (x ∷ xs) (y ∷ ys) =
    let rest = lex xs ys in if x == y then rest else if ltb x y then less else greater

abbrev pub flip : Sign → Sign
flip less = greater
flip equal = equal
flip greater = less

abbrev pub then_compare : Sign → Sign → Sign
then_compare equal rest = rest
then_compare less rest = less
then_compare greater rest = greater

tuple_sign : List ℕ → List ℕ → Sign
tuple_sign l r = if same_tuple l r then equal else if tuple_lt l r then less else greater

tuple_sign-cons :
    (x y : ℕ) (l r : List ℕ)
    → tuple_sign (x ∷ l) (y ∷ r)
      ≡ (if x == y then tuple_sign l r else if ltb x y then less else greater)
unfolding tuple_sign
tuple_sign-cons x y l r = ground arith

abbrev padded : List ℕ → ℕ → List ℕ
padded a n = a ++ replicate (max (length a) n - length a) 0

pad_cons : (x : ℕ) (xs : List ℕ) (n : ℕ) → padded (x ∷ xs) (suc n) ≡ x ∷ padded xs n
pad_cons x xs n =
    ap (λ k. x ∷ xs ++ replicate k 0)
      (let e : max (suc (length xs)) (suc n) - suc (length xs) ≡ max (length xs) n - length xs =
          omega arith in
        e)

pad_nil : (n : ℕ) → padded [] (suc n) ≡ 0 ∷ padded [] n
pad_nil n =
    ap (λ k. replicate k 0) (let e : max 0 (suc n) - 0 ≡ suc (max 0 n - 0) = omega arith in e)

pad_end : (x : ℕ) (xs : List ℕ) → padded (x ∷ xs) 0 ≡ x ∷ padded xs 0
pad_end x xs =
    ap (λ k. x ∷ xs ++ replicate k 0)
      (let e : max (suc (length xs)) 0 - suc (length xs) ≡ max (length xs) 0 - length xs =
          omega arith in
        e)

tuple_sign-padded :
    (a b : List ℕ) → tuple_sign (padded a (length b)) (padded b (length a)) ≡ lex a b
tuple_sign-padded [] [] = unfold tuple_sign in refl
tuple_sign-padded [] (y ∷ ys) =
    rw (pad_nil (length ys), pad_end y ys, tuple_sign-cons)
      (rw (tuple_sign-padded [] ys) (ground arith))
tuple_sign-padded (x ∷ xs) [] =
    rw (pad_nil (length xs), pad_end x xs, tuple_sign-cons)
      (rw (tuple_sign-padded xs []) (ground arith))
tuple_sign-padded (x ∷ xs) (y ∷ ys) =
    rw (pad_cons x xs (length ys), pad_cons y ys (length xs), tuple_sign-cons)
      (rw (tuple_sign-padded xs ys))

compare_cores-lex :
    (a b : List ℕ) (rest : Sign) → compare_cores a b rest ≡ then_compare (lex a b) rest
unfolding compare_cores tuple_sign
compare_cores-lex a b rest = ground (arith, tuple_sign-padded a b, swap_max)
  where
    swap_max : padded b (length a) ≡ b ++ replicate (max (length a) (length b) - length b) 0
    swap_max =
        ap (λ k. b ++ replicate (k - length b) 0)
          (let e : max (length b) (length a) ≡ max (length a) (length b) = omega arith in e)

-- `compare` is the three tests in turn: the cores, the snapshot marks, the build counters.
pub compare_versions_lem :
    (a b : Version)
    → compare_versions a b
      ≡ then_compare
          (lex a.core b.core)
          (compare_snapshots a.snapshot b.snapshot (compare_builds a.build b.build))
unfolding compare_versions
compare_versions_lem a b = compare_cores-lex a.core b.core _

lex-flip : (a b : List ℕ) → lex b a ≡ flip (lex a b)
lex-flip [] [] = refl
lex-flip [] (y ∷ ys) = ground (arith, lex-flip [] ys)
lex-flip (x ∷ xs) [] = ground (arith, lex-flip xs [])
lex-flip (x ∷ xs) (y ∷ ys) = ground (arith, lex-flip xs ys)

-- Where neither step goes down, the comparison over both is the first that is not equal.
lex_trans :
    (a b c : List ℕ)
    → lex a b ≢ greater
    → lex b c ≢ greater
    → lex a c ≡ then_compare (lex a b) (lex b c)
lex_trans [] [] c h k = refl
lex_trans [] (y ∷ ys) [] h k = ground (arith, lex_trans [] ys [])
lex_trans [] (y ∷ ys) (z ∷ zs) h k = ground (arith, lex_trans [] ys zs)
lex_trans (x ∷ xs) [] [] h k = ground (arith, lex_trans xs [] [])
lex_trans (x ∷ xs) [] (z ∷ zs) h k = ground (arith, lex_trans xs [] zs)
lex_trans (x ∷ xs) (y ∷ ys) [] h k = ground (arith, lex_trans xs ys [])
lex_trans (x ∷ xs) (y ∷ ys) (z ∷ zs) h k = ground (arith, lex_trans xs ys zs)

-- Comparing two versions the other way round gives the opposite sign.
pub compare_versions-flip : (a b : Version) → compare_versions b a ≡ flip (compare_versions a b)
unfolding compare_builds compare_snapshots
compare_versions-flip a b =
    rw (compare_versions_lem a b, compare_versions_lem b a, lex-flip a.core b.core) (ground arith)

-- Strictly below is transitive: below a version that is below a third is below the third.
pub compare_versions-less_trans :
    (a b c : Version)
    → compare_versions a b ≡ less
    → compare_versions b c ≡ less
    → compare_versions a c ≡ less
unfolding compare_builds compare_snapshots
compare_versions-less_trans a b c h k = ground (
  arith,
  compare_versions_lem a b,
  compare_versions_lem b c,
  compare_versions_lem a c,
  lex_trans a.core b.core c.core,
)

-- No version is below itself.
pub compare_versions_irrefl : (a : Version) → compare_versions a a ≢ less
compare_versions_irrefl a h = cc (compare_versions-flip a a)
