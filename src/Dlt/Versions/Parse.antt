-- ===== src/Dlt/Versions/Parse.antt =====
-- `Version` and `parse` of src/dlt/versions.py. The two regular expressions of the module are
-- written out as scans.
use agentic_resident_crm.Prelude.{
  ℕ, ◌+◌, ◌-◌, ◌*◌, Bool, true, false, List, [], ◌∷◌, ◌++◌, ◌==◌, nat_eq, if◌then◌else◌, Text, leb,
  ◌&&◌, ◌||◌, Option, none, some, map, codes, starts_with,
}
use agentic_resident_crm.Dlt.Versions.Image.{strip, version_of, drop_while}

pub record Version : Type 0 where
  pub raw : Text
  pub core : List ℕ
  pub qualifier : Text
  pub snapshot : Bool
  pub build : Option ℕ

abbrev pub is_digit : ℕ → Bool
is_digit c = leb b'0' c && leb c b'9'

abbrev pub starts_digit : Text → Bool
starts_digit [] = false
starts_digit (c ∷ t) = is_digit c

abbrev pub all_digits : Text → Bool
all_digits [] = true
all_digits (c ∷ t) = is_digit c && all_digits t

-- `int` of a run of digits, from the value `acc` of those before.
unfoldable pub number_from : ℕ → Text → ℕ
number_from acc [] = acc
number_from acc (c ∷ t) = number_from (acc * 10 + (c - b'0')) t

-- The match of `_CORE_RE` from inside a number: `acc` is its value so far, `parts` the numbers
-- before it. A dot goes on only where a digit follows.
unfoldable pub core_from : ℕ → List ℕ → Text → List ℕ × Text
core_from acc parts [] = (parts ++ acc ∷ [], [])
core_from acc parts (c ∷ t) =
    let rest =
      core_from (if is_digit c then acc * 10 + (c - b'0') else 0)
        (if is_digit c then parts else parts ++ acc ∷ []) t in
    if is_digit c
    then rest
    else if c == b'.' && starts_digit t
    then rest
    else (parts ++ acc ∷ [], c ∷ t)

abbrev is_separator : ℕ → Bool
is_separator c = c == b'.' || c == b'-' || c == b'_'

-- `_ORDINAL_RE.search`: a separator and digits up to the end.
unfoldable pub ordinal : Text → Option ℕ
unfolding number_from
ordinal [] = none
ordinal (c ∷ t) =
    let rest = ordinal t in
    if is_separator c && (starts_digit t && all_digits t) then some (number_from 0 t) else rest

abbrev lower : ℕ → ℕ
lower c = if leb b'A' c && leb c b'Z' then c + 32 else c

-- `part in t`
unfoldable pub has_part : Text → Text → Bool
has_part part [] = starts_with [] part
has_part part (c ∷ t) = starts_with (c ∷ t) part || has_part part t

abbrev is_v : ℕ → Bool
is_v c = c == b'v' || c == b'V'

-- `raw.lstrip("vV") if re.match(r"^[vV]\d", raw) else raw`
unfoldable pub without_v : Text → Text
unfolding drop_while
without_v [] = []
without_v (c ∷ t) = if is_v c && starts_digit t then drop_while is_v (c ∷ t) else c ∷ t

-- From the candidate text on.
unfoldable pub parse_candidate : Text → Text → Option Version
unfolding core_from ordinal has_part drop_while
parse_candidate raw candidate =
    let (core, tail) = core_from 0 [] candidate in
    if starts_digit candidate
    then some (record {
      raw = raw;
      core = core;
      qualifier = drop_while is_separator tail;
      snapshot = has_part (codes "snapshot") (map lower tail);
      build = ordinal tail;
    })
    else none

-- `a or b` on texts.
abbrev pub text_or : Text → Text → Text
text_or [] b = b
text_or (c ∷ t) b = c ∷ t

named_part : (Text → Option Text) → Text → Text
unfolding strip
named_part custom raw = elim (custom raw) [ none ↦ raw | some found ↦ text_or (strip found) raw ]

parse_stripped : (Text → Option Text) → Text → Option Version
unfolding named_part without_v parse_candidate version_of
parse_stripped custom [] = none
parse_stripped custom (c ∷ t) =
    let raw = named_part custom (text_or (version_of (c ∷ t)) (c ∷ t)) in
    parse_candidate raw (without_v raw)

unfoldable pub parse : (Text → Option Text) → Option Text → Option Version
unfolding parse_stripped strip
parse custom none = none
parse custom (some text) = parse_stripped custom (strip text)
