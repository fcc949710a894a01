-- ===== src/Dlt/Corroborate/Grounded.antt =====
-- The lines behind a verdict (`corroborate` of src/dlt/corroborate.py).
use agentic_resident_crm.Prelude.{
  Bool, true, false, ◌&&◌, any, List, text_eq, Text, contains, All, ◌≡◌,
}
use agentic_resident_crm.Dlt.Findings.{Verdict, corroborated, partial, contradicted, unverifiable}
use agentic_resident_crm.Dlt.Corroborate.Scanning.{ScannedLine, exceptions_in}
use agentic_resident_crm.Dlt.Corroborate.Reading.{
  Corroboration, Declared, Because, no_logs, skipped, no_lines, joined, texts, accusable,
  is_explained,
}
use agentic_resident_crm.Dlt.Corroborate.Citing.{names_root}
use agentic_resident_crm.Dlt.Corroborate.Accusing.{is_discrepancy, has_texts}

-- An exception that convicts: it is named on these lines and the trace does not explain it.
abbrev pub IsConvicting : Declared → List ScannedLine → Text → Type 0
IsConvicting d lines fqcn =
    (contains (exceptions_in (joined (texts lines))) fqcn ≡ true) × (is_explained d fqcn ≡ false)

abbrev pub is_matched : Verdict → Bool
is_matched corroborated = true
is_matched partial = true
is_matched contradicted = false
is_matched unverifiable = false

-- Whether the lines of the logs were looked at.
abbrev pub is_looked : Because → Bool
is_looked no_logs = false
is_looked skipped = false
is_looked no_lines = false
is_looked _ = true

-- The lines behind a verdict: its unexplained exceptions convict, they are there just where the
-- verdict is a discrepancy, the verdict says so just where the root is called found, and this is
-- just where the lines were looked at and one of them names it.
abbrev pub IsGrounded : Declared → List ScannedLine → Corroboration → Type 0
IsGrounded d lines c =
    All (IsConvicting d (accusable lines)) c.unexplained
    × (has_texts c.unexplained ≡ is_discrepancy c.verdict)
    × (c.matched_declared ≡ is_matched c.verdict)
    × (c.matched_declared ≡ (is_looked c.reason && any (λ line. names_root d line.text) lines))
