-- ===== src/Dlt/Corroborate/Reading.antt =====
-- `corroborate` of src/dlt/corroborate.py. What an operator's report alone shows is left out: the
-- wording of a reason, the hits of frames and the sorted lists of names in the details.
use agentic_resident_crm.Prelude.{
  ℕ, Bool, true, false, not, ◌&&◌, ◌||◌, List, [], ◌∷◌, ◌++◌, Option, none, some, if◌then◌else◌,
  ◌==◌, text_eq, Text, codes, contains, keep, any, take, length, or_else, get_or, is_some, text_lt,
}
use agentic_resident_crm.Dlt.Versions.{strip, after_last}
use agentic_resident_crm.Dlt.Findings.{Verdict, corroborated, partial, contradicted, unverifiable}
use agentic_resident_crm.Dlt.Corroborate.Scanning.{ScannedLine, exceptions_in, is_in, scan_lines}

pub data MatchedOn : Type 0 where
  by_fqcn by_simple_name by_code : MatchedOn

pub data Because : Type 0 where
  no_logs skipped no_lines no_levels appears unexplained_errors other_errors set_aside
        nothing_named :
      Because

pub record Corroboration : Type 0 where
  pub verdict : Verdict
  pub reason : Because
  pub citations : List Text
  pub unexplained : List Text
  pub matched_declared : Bool
  pub matched_on : Option MatchedOn
  pub error_lines_seen : ℕ
  pub could_not_look : Bool

-- What is declared of the trace.
pub record Declared : Type 0 where
  pub root_fqcn : Option Text
  pub business_code : Option Text
  pub chain : List Text

abbrev pub max_citations : ℕ
max_citations = 20

abbrev pub skip_markers : List Text
skip_markers =
    codes "No refId available"
    ∷ codes "No usable timestamp"
    ∷ codes "Log window too old"
    ∷ codes "Log fetch failed"
    ∷ codes "Log fetching disabled"
    ∷ []

abbrev pub empty_markers : List Text
empty_markers = codes "No logs found for ID:" ∷ []

unfoldable pub simple_name : Option Text → Text
simple_name none = []
simple_name (some fqcn) = after_last b'.' fqcn

abbrev pub is_null : Text → Bool
is_null [] = true
is_null (c ∷ t) = false

abbrev pub joined : List Text → Text
joined [] = []
joined (t ∷ []) = t
joined (t ∷ u ∷ rest) = t ++ 10 ∷ joined (u ∷ rest)

abbrev pub texts : List ScannedLine → List Text
texts [] = []
texts (line ∷ rest) = line.text ∷ texts rest

-- The lines that may convict, and those set aside.
abbrev pub accusable : List ScannedLine → List ScannedLine
accusable scanned = keep (λ line. line.attributed && line.error_level) scanned

abbrev pub on_context : List ScannedLine → List ScannedLine
on_context scanned = keep (λ line. not line.attributed) scanned

abbrev pub on_warn : List ScannedLine → List ScannedLine
on_warn scanned = keep (λ line. line.attributed && not line.error_level) scanned

abbrev pub error_texts : List ScannedLine → List Text
error_texts scanned = texts (keep (λ line. line.error_level) scanned)

abbrev pub first_with : Text → List ScannedLine → Option ScannedLine
first_with needle [] = none
first_with needle (line ∷ rest) =
    if is_in needle line.text then some line else first_with needle rest

abbrev pub labelled : MatchedOn → Option ScannedLine → Option (MatchedOn × ScannedLine)
labelled label none = none
labelled label (some line) = some (label, line)

-- A spelling that is empty is passed over.
abbrev pub matched_by : MatchedOn → Text → List ScannedLine → Option (MatchedOn × ScannedLine)
matched_by label needle scanned =
    if is_null needle then none else labelled label (first_with needle scanned)

abbrev pub match_of : Declared → List ScannedLine → Option (MatchedOn × ScannedLine)
match_of d scanned = or_else (matched_by by_fqcn (get_or d.root_fqcn []) scanned) (
    or_else (matched_by by_simple_name (simple_name d.root_fqcn) scanned)
      (matched_by by_code (get_or d.business_code []) scanned))

abbrev pub is_root : Option Text → Text → Bool
is_root none fqcn = false
is_root (some root) fqcn = fqcn == root

abbrev pub is_explained : Declared → Text → Bool
is_explained d fqcn =
    is_root d.root_fqcn fqcn
    || simple_name (some fqcn) == simple_name d.root_fqcn
    || contains (keep (λ t. not (is_null t)) d.chain) fqcn

abbrev pub insert_text : Text → List Text → List Text
insert_text t [] = t ∷ []
insert_text t (u ∷ rest) =
    let further = insert_text t rest in if text_lt u t then u ∷ further else t ∷ u ∷ rest

-- `sorted(set(…))`
unfoldable pub sorted_set : List Text → List Text
sorted_set [] = []
sorted_set (t ∷ rest) =
    let sorted = sorted_set rest in if contains sorted t then sorted else insert_text t sorted

unfoldable pub unexplained_in : Declared → List ScannedLine → List Text
unexplained_in d lines =
    sorted_set (keep (λ fqcn. not (is_explained d fqcn)) (exceptions_in (joined (texts lines))))

-- The unexplained exceptions of lines set aside, less those already counted.
abbrev pub set_aside_in : Declared → List Text → List ScannedLine → List Text
set_aside_in d counted lines = keep (λ fqcn. not (contains counted fqcn)) (unexplained_in d lines)

-- `dict.fromkeys`: the first of equal texts is kept.
abbrev pub distinct_onto : List Text → List Text → List Text
distinct_onto seen [] = seen
distinct_onto seen (t ∷ rest) =
    distinct_onto (if contains seen t then seen else seen ++ t ∷ []) rest

abbrev pub matched_text : Option (MatchedOn × ScannedLine) → List Text
matched_text none = []
matched_text (some (label, line)) = line.text ∷ []

abbrev pub cited : Option (MatchedOn × ScannedLine) → List ScannedLine → List Text
cited match scanned =
    take max_citations (distinct_onto [] (matched_text match ++ error_texts scanned))

abbrev pub label_of : Option (MatchedOn × ScannedLine) → Option MatchedOn
label_of none = none
label_of (some (label, line)) = some label

abbrev pub unread : Because → Bool → Corroboration
unread reason could_not_look = record {
  verdict = unverifiable;
  reason = reason;
  citations = [];
  unexplained = [];
  matched_declared = false;
  matched_on = none;
  error_lines_seen = 0;
  could_not_look = could_not_look;
}

abbrev pub read :
    Verdict
    → Because
    → List Text
    → Option (MatchedOn × ScannedLine)
    → List ScannedLine
    → Corroboration
read verdict reason unexplained match scanned = record {
  verdict = verdict;
  reason = reason;
  citations = cited match scanned;
  unexplained = unexplained;
  matched_declared = is_some match;
  matched_on = label_of match;
  error_lines_seen = length (error_texts scanned);
  could_not_look = false;
}

-- Neither matched nor unexplained: what was set aside only says why.
abbrev pub undecided : List Text → List Text → List ScannedLine → Corroboration
undecided [] [] scanned = read unverifiable nothing_named [] none scanned
undecided [] (t ∷ ts) scanned = read unverifiable set_aside [] none scanned
undecided (t ∷ ts) warned scanned = read unverifiable set_aside [] none scanned

unfoldable pub judged :
    Declared → Option (MatchedOn × ScannedLine) → List Text → List ScannedLine → Corroboration
judged d (some m) [] scanned = read corroborated appears [] (some m) scanned
judged d (some m) (t ∷ ts) scanned = read partial unexplained_errors (t ∷ ts) (some m) scanned
judged d none (t ∷ ts) scanned = read contradicted other_errors (t ∷ ts) none scanned
judged d none [] scanned =
    undecided (set_aside_in d [] (on_context scanned)) (set_aside_in d [] (on_warn scanned)) scanned

unfoldable pub compared : Declared → List ScannedLine → Corroboration
compared d [] = unread no_levels false
compared d (line ∷ rest) =
    let scanned = line ∷ rest in
    judged d (match_of d scanned) (unexplained_in d (accusable scanned)) scanned

unfoldable pub corroborate : Option Text → Declared → Corroboration
corroborate none d = unread no_logs true
corroborate (some logs) d =
    if is_null (strip logs)
    then unread no_logs true
    else if any (λ marker. is_in marker logs) skip_markers
    then unread skipped true
    else if any (λ marker. is_in marker logs) empty_markers
    then unread no_lines false
    else compared d (scan_lines logs)
