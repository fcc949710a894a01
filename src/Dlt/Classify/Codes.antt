-- ===== src/Dlt/Classify/Codes.antt =====
-- `_CODE_RE` and `extract_business_code` of src/dlt/classify.py.
use agentic_resident_crm.Prelude.{
  ℕ, Bool, false, ◌&&◌, ◌||◌, Text, List, [], ◌∷◌, Option, none, some, if◌then◌else◌, length, leb,
  ◌==◌, nat_eq, or_else,
}

abbrev pub is_upper : ℕ → Bool
is_upper c = leb b'A' c && leb c b'Z'

-- `[A-Z0-9_]`
abbrev pub is_code_char : ℕ → Bool
is_code_char c = is_upper c || (leb b'0' c && leb c b'9') || c == b'_'

abbrev pub cons_to : ℕ → Option Text → Option Text
cons_to c none = none
cons_to c (some t) = some (c ∷ t)

-- The code characters up to a closing bracket, none where another character comes first.
unfoldable pub code_run : Text → Option Text
code_run [] = none
code_run (c ∷ t) =
    let rest = code_run t in
    if c == b']' then some [] else if is_code_char c then cons_to c rest else none

abbrev pub starts_upper : Text → Bool
starts_upper [] = false
starts_upper (c ∷ t) = is_upper c

-- `[A-Z][A-Z0-9_]{2,}`, of a run of code characters.
abbrev pub long_enough : Option Text → Option Text
long_enough none = none
long_enough (some t) = if starts_upper t && leb 3 (length t) then some t else none

-- `_CODE_RE.search(text)`, its first group.
unfoldable pub find_code : Text → Option Text
unfolding code_run
find_code [] = none
find_code (c ∷ t) =
    let rest = find_code t in if c == b'[' then or_else (long_enough (code_run t)) rest else rest

-- The first text that is given and holds a code.
unfoldable pub extract_business_code : List (Option Text) → Option Text
unfolding find_code
extract_business_code [] = none
extract_business_code (none ∷ texts) = extract_business_code texts
extract_business_code (some text ∷ texts) = or_else (find_code text) (extract_business_code texts)
