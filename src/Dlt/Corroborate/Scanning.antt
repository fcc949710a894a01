-- ===== src/Dlt/Corroborate/Scanning.antt =====
-- The lines that a verdict may read: `_scan_lines` of src/dlt/corroborate.py, with its regular
-- expressions.
use agentic_resident_crm.Prelude.{
  ℕ, Bool, true, false, not, ◌&&◌, ◌||◌, List, [], ◌∷◌, none, if◌then◌else◌, ◌==◌, nat_eq, leb,
  Text, codes, starts_with, reverse,
}
use agentic_resident_crm.Prelude.Regex.{
  Matcher, is_word, one, edge, ◌then◌, either, nothing, many, literal, is_match, searches, find_all,
}
use agentic_resident_crm.Dlt.Versions.{strip, is_space}

pub record ScannedLine : Type 0 where
  pub text : Text
  pub attributed : Bool
  pub error_level : Bool

-- `\b(ERROR|FATAL|SEVERE)\b`
abbrev pub error_word : Matcher
error_word =
    edge
    then (either (literal (codes "ERROR"))
          (either (literal (codes "FATAL")) (literal (codes "SEVERE")))
        then edge)

-- `\b(ERROR|FATAL|SEVERE|WARN(?:ING)?)\b`
abbrev pub matchable_word : Matcher
matchable_word =
    edge
    then (either (literal (codes "ERROR")) (
          either (literal (codes "FATAL")) (
            either (literal (codes "SEVERE"))
              (literal (codes "WARN") then either (literal (codes "ING")) nothing)))
        then edge)

-- `^\s*(?:\*\*\*\s*)?\[`
abbrev pub line_start : Matcher
line_start =
    many (one is_space)
    then (either (literal (codes "***") then many (one is_space)) nothing then one (λ c. c == b'['))

abbrev pub is_lower : ℕ → Bool
is_lower c = leb b'a' c && leb c b'z'

abbrev pub is_upper : ℕ → Bool
is_upper c = leb b'A' c && leb c b'Z'

-- `[\w$]`
abbrev pub is_name_char : ℕ → Bool
is_name_char c = is_word c || c == b'$'

-- `[a-z][\w$]*\.`
abbrev pub package_part : Matcher
package_part = one is_lower then (many (one is_name_char) then one (λ c. c == b'.'))

-- `_FQCN_IN_TEXT`
abbrev pub exception_name : Matcher
exception_name =
    edge
    then (package_part
        then (package_part
            then (many package_part
                then (one is_upper
                    then (many (one is_name_char)
                        then (either (literal (codes "Exception"))
                              (either (literal (codes "Error")) (literal (codes "Throwable")))
                            then edge))))))

abbrev pub is_error_line : Text → Bool
is_error_line line = searches error_word none line

abbrev pub is_matchable_line : Text → Bool
is_matchable_line line = searches matchable_word none line

abbrev pub is_line_start : Text → Bool
is_line_start line = is_match (line_start none line)

abbrev pub exceptions_in : Text → List Text
exceptions_in t = find_all exception_name t

-- `needle in text`
unfoldable pub is_in : Text → Text → Bool
is_in needle [] = starts_with [] needle
is_in needle (c ∷ t) = starts_with (c ∷ t) needle || is_in needle t

-- The line breaks of `str.splitlines`, for ASCII.
abbrev pub is_break : ℕ → Bool
is_break c = (leb 10 c && leb c 13) || (leb 28 c && leb c 30)

-- A line that is being read, its characters the last first, and whether a `\r` came just before.
pub record Lines : Type 0 where
  pub current : Text
  pub after_return : Bool
  pub done : List Text

abbrev pub read_char : ℕ → Lines → Lines
read_char c s =
    if s.after_return && c == 10
    then record s { after_return = false }
    else if is_break c
    then record { current = []; after_return = c == 13; done = reverse s.current ∷ s.done }
    else record { current = c ∷ s.current; after_return = false; done = s.done }

unfoldable pub read_lines : Text → Lines → Lines
read_lines [] s = s
read_lines (c ∷ t) s = read_lines t (read_char c s)

-- A last line that is empty is none.
abbrev pub closed : Text → List Text → List Text
closed [] done = reverse done
closed (c ∷ t) done = reverse (reverse (c ∷ t) ∷ done)

unfoldable pub split_lines : Text → List Text
split_lines t =
    let s = read_lines t (record { current = []; after_return = false; done = [] }) in
    closed s.current s.done

abbrev pub context_line_marker : Text
context_line_marker = codes "[context]"

abbrev pub scanned_line : Bool → Text → List ScannedLine → List ScannedLine
scanned_line inherited line rest =
    if is_matchable_line line
    then record { text = strip line; attributed = inherited; error_level = is_error_line line }
      ∷ rest
    else rest

abbrev pub attribution : Bool → Text → Bool
attribution inherited line =
    if is_line_start line then not (is_in context_line_marker line) else inherited

unfoldable pub scan_from : Bool → List Text → List ScannedLine
scan_from inherited [] = []
scan_from inherited (line ∷ lines) =
    let now = attribution inherited line in scanned_line now line (scan_from now lines)

unfoldable pub scan_lines : Text → List ScannedLine
scan_lines logs = scan_from true (split_lines logs)
