-- ===== src/Dlt/Corroborate/Citing.antt =====
-- What a verdict cites (`corroborate` of src/dlt/corroborate.py).
use agentic_resident_crm.Prelude.{
  ℕ, zero, suc, ◌≤◌, Bool, true, not, ◌&&◌, ◌||◌, List, [], ◌∷◌, ◌++◌, Option, none, some, text_eq,
  Text, contains, take, length, get_or, or_else, ◌≡◌, refl, ap, arith, inl, inr, Bool-cases,
}
use agentic_resident_crm.Dlt.Corroborate.Scanning.{ScannedLine, is_in, scan_lines}
use agentic_resident_crm.Dlt.Corroborate.Reading.{
  Corroboration, Declared, MatchedOn, by_fqcn, by_simple_name, by_code, max_citations, simple_name,
  is_null, first_with, labelled, matched_by, match_of, error_texts, distinct_onto, cited, undecided,
  judged, compared, corroborate,
}
use agentic_resident_crm.Dlt.Corroborate.Accusing.{corroborate-either}

length-take_le {ℓ} : {A : Type ℓ} (n : ℕ) (xs : List A) → length (take n xs) ≤ n
length-take_le zero xs = omega arith
length-take_le (suc n) [] = omega arith
length-take_le (suc n) (x ∷ xs) = omega (arith, length-take_le n xs)

-- A spelling of the declared root, and one of them in a line.
abbrev pub spelled : Text → Text → Bool
spelled needle t = not (is_null needle) && is_in needle t

abbrev pub names_root : Declared → Text → Bool
names_root d t =
    spelled (get_or d.root_fqcn []) t
    || spelled (simple_name d.root_fqcn) t
    || spelled (get_or d.business_code []) t

abbrev IsMatchIn : (Text → Bool) → Option (MatchedOn × ScannedLine) → Type 0
IsMatchIn p none = Unit
IsMatchIn p (some (label, line)) = p line.text ≡ true

first_with-IsMatchIn :
    (label : MatchedOn) (needle : Text) (lines : List ScannedLine)
    → IsMatchIn (is_in needle) (labelled label (first_with needle lines))
first_with-IsMatchIn label needle [] = tt
first_with-IsMatchIn label needle (line ∷ rest) = elim (Bool-cases (is_in needle line.text)) [
  | inl b ↦ rw b b
  | inr b ↦ rw b (first_with-IsMatchIn label needle rest)
]

weaker :
    (p q : Text → Bool) (m : Option (MatchedOn × ScannedLine))
    → ((t : Text) → p t ≡ true → q t ≡ true)
    → IsMatchIn p m
    → IsMatchIn q m
weaker p q none f h = tt
weaker p q (some (label, line)) f h = f line.text h

matched_by-IsMatchIn :
    (label : MatchedOn) (needle : Text) (lines : List ScannedLine)
    → IsMatchIn (spelled needle) (matched_by label needle lines)
matched_by-IsMatchIn label [] lines = tt
matched_by-IsMatchIn label (c ∷ t) lines =
    weaker (is_in (c ∷ t)) (spelled (c ∷ t)) (labelled label (first_with (c ∷ t) lines)) (λ u h. h)
      (first_with-IsMatchIn label (c ∷ t) lines)

or_else-IsMatchIn :
    (p : Text → Bool) (m n : Option (MatchedOn × ScannedLine))
    → IsMatchIn p m
    → IsMatchIn p n
    → IsMatchIn p (or_else m n)
or_else-IsMatchIn p none n hm hn = hn
or_else-IsMatchIn p (some m) n hm hn = hm

match_of-IsMatchIn :
    (d : Declared) (lines : List ScannedLine) → IsMatchIn (names_root d) (match_of d lines)
match_of-IsMatchIn d lines =
    or_else-IsMatchIn (names_root d) _ _
      (weaker _ (names_root d) (matched_by by_fqcn (get_or d.root_fqcn []) lines)
        (λ t h. ground (arith, h)) (matched_by-IsMatchIn by_fqcn (get_or d.root_fqcn []) lines))
      (or_else-IsMatchIn (names_root d) _ _
        (weaker _ (names_root d) (matched_by by_simple_name (simple_name d.root_fqcn) lines)
          (λ t h. ground (arith, h))
          (matched_by-IsMatchIn by_simple_name (simple_name d.root_fqcn) lines))
        (weaker _ (names_root d) (matched_by by_code (get_or d.business_code []) lines)
          (λ t h. ground (arith, h))
          (matched_by-IsMatchIn by_code (get_or d.business_code []) lines)))

-- A text comes first in a list.
abbrev pub IsHeadOf : (Text → Bool) → List Text → Type 0
IsHeadOf p [] = Unit
IsHeadOf p (t ∷ ts) = p t ≡ true

distinct_onto-first :
    (t : Text) (seen ts : List Text) → (rest : List Text) × (distinct_onto (t ∷ seen) ts ≡ t ∷ rest)
distinct_onto-first t seen [] = (seen, refl)
distinct_onto-first t seen (u ∷ us) = elim (Bool-cases (contains (t ∷ seen) u)) [
  | inl b ↦ rw b (distinct_onto-first t seen us)
  | inr b ↦ rw b (distinct_onto-first t (seen ++ u ∷ []) us)
]

-- At most twenty lines are cited, and where the root was found the first names it.
abbrev pub IsCited : Declared → Corroboration → Type 0
IsCited d c =
    (length c.citations ≤ max_citations)
    × (c.matched_declared ≡ true
        → (t : Text) × (rest : List Text) × (c.citations ≡ t ∷ rest) × (names_root d t ≡ true))

cited-first :
    (d : Declared) (m : MatchedOn × ScannedLine) (lines : List ScannedLine)
    → names_root d (m.1).text ≡ true
    → (t : Text) × (rest : List Text) × (cited (some m) lines ≡ t ∷ rest) × (names_root d t ≡ true)
cited-first d (label, line) lines h =
    let (rest, e) = distinct_onto-first line.text [] (error_texts lines) in
    (line.text, take 19 rest, ap (take max_citations) e, h)

undecided-IsCited :
    (d : Declared) (s t : List Text) (lines : List ScannedLine) → IsCited d (undecided s t lines)
undecided-IsCited d [] [] lines = (length-take_le max_citations _, λ h. absurd (ground (arith, h)))
undecided-IsCited d [] (t ∷ ts) lines =
    (length-take_le max_citations _, λ h. absurd (ground (arith, h)))
undecided-IsCited d (t ∷ ts) u lines =
    (length-take_le max_citations _, λ h. absurd (ground (arith, h)))

judged-IsCited :
    (d : Declared) (m : Option (MatchedOn × ScannedLine)) (u : List Text) (lines : List ScannedLine)
    → IsMatchIn (names_root d) m
    → IsCited d (judged d m u lines)
unfolding judged
judged-IsCited d (some (label, line)) [] lines h =
    (length-take_le max_citations _, λ _. cited-first d (label, line) lines h)
judged-IsCited d (some (label, line)) (t ∷ ts) lines h =
    (length-take_le max_citations _, λ _. cited-first d (label, line) lines h)
judged-IsCited d none (t ∷ ts) lines h =
    (length-take_le max_citations _, λ e. absurd (ground (arith, e)))
judged-IsCited d none [] lines h = undecided-IsCited d _ _ lines

compared-IsCited : (d : Declared) (lines : List ScannedLine) → IsCited d (compared d lines)
unfolding compared
compared-IsCited d [] = (omega arith, λ e. absurd (ground (arith, e)))
compared-IsCited d (line ∷ rest) =
    judged-IsCited d (match_of d (line ∷ rest)) _ (line ∷ rest) (match_of-IsMatchIn d (line ∷ rest))

-- A verdict cites at most twenty lines, and where it says that the declared root appears in the logs
-- the first line that it cites holds a spelling of it: its name, its simple name or its code.
pub corroborate-IsCited : (logs : Text) (d : Declared) → IsCited d (corroborate (some logs) d)
corroborate-IsCited logs d =
    corroborate-either (IsCited d) logs d (omega arith, λ e. absurd (ground (arith, e)))
      (omega arith, λ e. absurd (ground (arith, e))) (omega arith, λ e. absurd (ground (arith, e)))
      (compared-IsCited d (scan_lines logs))
