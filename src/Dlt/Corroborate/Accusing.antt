-- ===== src/Dlt/Corroborate/Accusing.antt =====
-- What may convict a trace, and what a verdict cites (`corroborate` of src/dlt/corroborate.py).
use agentic_resident_crm.Prelude.{
  Bool, true, false, ◌&&◌, List, [], ◌∷◌, Option, none, some, if◌then◌else◌, text_eq, Text, keep,
  any, ◌≡◌, refl, ap, ◌∙◌, arith, inl, inr, Bool-cases,
}
use agentic_resident_crm.Prelude.Regex.{find_all, find_from}
use agentic_resident_crm.Dlt.Versions.{strip}
use agentic_resident_crm.Dlt.Findings.{Verdict, corroborated, partial, contradicted, unverifiable}
use agentic_resident_crm.Dlt.Corroborate.Scanning.{ScannedLine, is_in, scan_lines}
use agentic_resident_crm.Dlt.Corroborate.Reading.{
  no_logs, skipped, no_lines, Corroboration, Declared, MatchedOn, skip_markers, empty_markers,
  is_null, accusable, on_context, on_warn, match_of, sorted_set, unexplained_in, set_aside_in,
  undecided, unread, judged, compared, corroborate,
}

-- `is_discrepancy`
abbrev pub is_discrepancy : Verdict → Bool
is_discrepancy corroborated = false
is_discrepancy partial = true
is_discrepancy contradicted = true
is_discrepancy unverifiable = false

abbrev pub has_texts : List Text → Bool
has_texts [] = false
has_texts (t ∷ ts) = true

if-either :
    (P : Corroboration → Type 0) (b : Bool) (x y : Corroboration)
    → P x
    → P y
    → P (if b then x else y)
if-either P true x y hx hy = hx
if-either P false x y hx hy = hy

-- What holds of the verdicts on logs that were not read, and of the one on their lines.
pub corroborate-either :
    (P : Corroboration → Type 0) (logs : Text) (d : Declared)
    → P (unread no_logs true)
    → P (unread skipped true)
    → P (unread no_lines false)
    → P (compared d (scan_lines logs))
    → P (corroborate (some logs) d)
unfolding corroborate
corroborate-either P logs d silent passed_over empty hc =
    if-either P (is_null (strip logs)) _ _ silent (
      if-either P (any (λ marker. is_in marker logs) skip_markers) _ _ passed_over
        (if-either P (any (λ marker. is_in marker logs) empty_markers) _ _ empty hc))

keep-none :
    (p : ScannedLine → Bool) (lines : List ScannedLine) → any p lines ≡ false → keep p lines ≡ []
keep-none p [] h = refl
keep-none p (line ∷ rest) h = elim (Bool-cases (p line)) [
  | inl on ↦ absurd (ground (arith, h, on))
  | inr off ↦ rw off (keep-none p rest (ground (arith, h, off)))
]

unexplained_in-nothing : (d : Declared) → unexplained_in d [] ≡ []
unfolding unexplained_in sorted_set find_all find_from
unexplained_in-nothing d = refl

undecided-verdict :
    (s t : List Text) (lines : List ScannedLine)
    → is_discrepancy (undecided s t lines).verdict ≡ false
undecided-verdict [] [] lines = refl
undecided-verdict [] (t ∷ ts) lines = refl
undecided-verdict (t ∷ ts) u lines = refl

judged-verdict :
    (d : Declared) (m : Option (MatchedOn × ScannedLine)) (lines : List ScannedLine)
    → is_discrepancy (judged d m [] lines).verdict ≡ false
unfolding judged
judged-verdict d none lines =
    undecided-verdict (set_aside_in d [] (on_context lines)) (set_aside_in d [] (on_warn lines))
      lines
judged-verdict d (some m) lines = refl

compared-verdict :
    (d : Declared) (lines : List ScannedLine)
    → any (λ line. line.attributed && line.error_level) lines ≡ false
    → is_discrepancy (compared d lines).verdict ≡ false
unfolding compared
compared-verdict d [] h = refl
compared-verdict d (line ∷ rest) h =
    ap (λ u. is_discrepancy (judged d (match_of d (line ∷ rest)) u (line ∷ rest)).verdict)
      nothing_left
    ∙ judged-verdict d (match_of d (line ∷ rest)) (line ∷ rest)
  where
    nothing_left : unexplained_in d (accusable (line ∷ rest)) ≡ []
    nothing_left =
        ap (unexplained_in d) (keep-none (λ l. l.attributed && l.error_level) (line ∷ rest) h)
        ∙ unexplained_in-nothing d

-- The trace is contradicted, in part or in whole, only where the window has a line that is both at
-- error level and attributed to the packet: warnings and lines of other packets never convict it.
pub corroborate-IsFair :
    (logs : Text) (d : Declared)
    → any (λ line. line.attributed && line.error_level) (scan_lines logs) ≡ false
    → is_discrepancy (corroborate (some logs) d).verdict ≡ false
corroborate-IsFair logs d h =
    corroborate-either (λ c. is_discrepancy c.verdict ≡ false) logs d refl refl refl
      (compared-verdict d (scan_lines logs) h)
