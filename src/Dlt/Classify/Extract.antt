-- ===== src/Dlt/Classify/Extract.antt =====
-- `extract_business_code` of src/dlt/classify.py finds a bracketed code, and finds one where there
-- is one.
use mathlib.Core.Option.{some-injective}
use agentic_resident_crm.Prelude.{
  ℕ, ◌≤◌, true, ◌&&◌, Text, [], ◌∷◌, ◌++◌, Option, none, some, length, leb, ◌==◌, nat_eq, ◌≡◌, sym,
  ◌∙◌, refl, arith, All, Bool-cases, Option-cases, inl, inr, is_some, ap,
}
use agentic_resident_crm.Dlt.Classify.Codes.{
  is_code_char, code_run, starts_upper, long_enough, find_code,
}

-- A reason code: a capital, then capitals, digits and underscores, three characters at least.
pub record IsCode (code : Text) : Type 0 where
  pub capital : starts_upper code ≡ true
  pub length_3 : 3 ≤ length code
  pub characters : All (λ c. is_code_char c ≡ true) code

code_run-split :
    (t code : Text)
    → code_run t ≡ some code
    → (rest : Text) × (t ≡ code ++ b']' ∷ rest) × All (λ c. is_code_char c ≡ true) code
unfolding code_run
code_run-split [] code h = cc
code_run-split (c ∷ t) code h = elim (Bool-cases (c == b']')) [
  | inl e ↦
      let nil : code ≡ [] = sym (some-injective _ _ (rw e at h)) in rw nil (t, ground arith, tt)
  | inr other ↦ elim (Bool-cases (is_code_char c)) [
    | inl char ↦ elim (Option-cases (code_run t)) [
      | inl ended ↦ cc (rw (other, char, ended) at h)
      | inr (u, run) ↦
          let whole : code ≡ c ∷ u = sym (some-injective _ _ (rw (other, char, run) at h)) in
          let (rest, e, chars) = code_run-split t u run in
          rw whole (rest, ap (λ (x : Text). c ∷ x) e, (char, chars))
    ]
    | inr foreign ↦ cc (rw (other, foreign) at h)
  ]
]

code_run-append :
    (code rest : Text)
    → All (λ c. is_code_char c ≡ true) code
    → code_run (code ++ b']' ∷ rest) ≡ some code
unfolding code_run
code_run-append [] rest h = refl
code_run-append (c ∷ code) rest h = let ih = code_run-append code rest h.1 in ground (arith, ih)

long_enough-some :
    (o : Option Text) (code : Text)
    → long_enough o ≡ some code
    → (o ≡ some code) × (starts_upper code ≡ true) × (3 ≤ length code)
long_enough-some none code h = cc
long_enough-some (some t) code h = elim (Bool-cases (starts_upper t && leb 3 (length t))) [
  | inl ok ↦
      let same : t ≡ code = some-injective _ _ (rw ok at h) in
      let both : (starts_upper t ≡ true) × (3 ≤ length t) = ground arith in
      (ap some same, rw same at (both.0), rw same at (both.1))
  | inr short ↦ cc (rw short at h)
]

abbrev Stands : Text → Text → Type 0
Stands t code = (before after : Text) × (t ≡ before ++ b'[' ∷ (code ++ b']' ∷ after)) × IsCode code

widen : {t code : Text} (c : ℕ) → Stands t code → Stands (c ∷ t) code
widen c (before, after, e, k) = (c ∷ before, after, ap (λ (x : Text). c ∷ x) e, k)

-- What is found stands in the text between brackets, and is a code.
pub find_code-IsCode :
    (t code : Text)
    → find_code t ≡ some code
    → (before after : Text) × (t ≡ before ++ b'[' ∷ (code ++ b']' ∷ after)) × IsCode code
unfolding find_code
find_code-IsCode [] code h = cc
find_code-IsCode (c ∷ t) code h = elim (Bool-cases (c == b'[')) [
  | inl e ↦ elim (Option-cases (long_enough (code_run t))) [
    | inl shorter ↦ widen c (find_code-IsCode t code (rw (e, shorter) at h))
    | inr (u, found) ↦
        let same : u ≡ code = some-injective _ _ (rw (e, found) at h) in
        let (run, capital, enough) = long_enough-some (code_run t) code (found ∙ ap some same) in
        let (after, split, chars) = code_run-split t code run in
        (
          [],
          after,
          ground arith,
          record { capital = capital; length_3 = enough; characters = chars },
        )
  ]
  | inr other ↦ widen c (find_code-IsCode t code (rw other at h))
]

-- Where a bracketed code stands in the text, a code is found.
pub find_code-found :
    (before code after : Text)
    → IsCode code
    → is_some (find_code (before ++ b'[' ∷ (code ++ b']' ∷ after))) ≡ true
unfolding find_code
find_code-found [] code after k =
    rw (code_run-append code after k.characters) (ground (arith, k.length_3))
find_code-found (c ∷ before) code after k = ground (arith, find_code-found before code after k)
