-- ===== src/Dlt/Corroborate/Examples.antt =====
-- Verdicts at concrete logs (src/dlt/corroborate.py).
use agentic_resident_crm.Prelude.{false, [], ◌∷◌, ◌++◌, some, Text, codes, ◌≡◌, refl}
use agentic_resident_crm.Prelude.Regex.{find_all, find_from, searches}
use agentic_resident_crm.Dlt.Versions.{strip, drop_while, after_last, last_part}
use agentic_resident_crm.Dlt.Findings.{partial, unverifiable}
use agentic_resident_crm.Dlt.Corroborate.Scanning.{
  is_in, scan_from, read_lines, scan_lines, exceptions_in, split_lines,
}
use agentic_resident_crm.Dlt.Corroborate.Reading.{
  Declared, corroborate, compared, judged, unexplained_in, sorted_set, simple_name,
}
use agentic_resident_crm.Dlt.Corroborate.Accusing.{is_discrepancy, corroborate-IsFair}
use agentic_resident_crm.Dlt.Corroborate.Citing.{IsCited, corroborate-IsCited}

abbrev declared : Declared
declared = record {
  root_fqcn = some (codes "in.app.core.DataError");
  business_code = some (codes "UID-77");
  chain = codes "org.spring.kafka.ListenerException" ∷ [];
}

abbrev line : Text → Text
line t = t ++ 10 ∷ []

abbrev fair_logs : Text
fair_logs =
    line (codes "[10:00] [pod] [WARN] a.b.OtherException: retry")
    ++ line (codes "[10:01] [context] [ERROR] a.b.OtherException: boom")

abbrev mixed_logs : Text
mixed_logs =
    line (codes "[10:00] [pod] [ERROR] DataError: UID-77")
    ++ line (codes "[10:01] [pod] [ERROR] a.b.OtherException: boom")

names_found :
    exceptions_in (codes "x a.b.OtherException: q.r.FooError$1 c.d.Bar in.app.DataError")
    ≡ codes "a.b.OtherException" ∷ codes "q.r.FooError" ∷ codes "in.app.DataError" ∷ []
unfolding find_all find_from
names_found = refl

not_convicted : (corroborate (some fair_logs) declared).verdict ≡ unverifiable
unfolding corroborate strip drop_while is_in compared judged unexplained_in sorted_set simple_name
    after_last last_part scan_lines scan_from split_lines read_lines searches find_all find_from
not_convicted = refl

in_part : (corroborate (some mixed_logs) declared).verdict ≡ partial
unfolding corroborate strip drop_while is_in compared judged unexplained_in sorted_set simple_name
    after_last last_part scan_lines scan_from split_lines read_lines searches find_all find_from
in_part = refl

corroborate-IsFair_example : is_discrepancy (corroborate (some fair_logs) declared).verdict ≡ false
unfolding scan_lines scan_from split_lines read_lines searches is_in strip drop_while
corroborate-IsFair_example = corroborate-IsFair fair_logs declared refl

corroborate-IsCited_example : IsCited declared (corroborate (some mixed_logs) declared)
corroborate-IsCited_example = corroborate-IsCited mixed_logs declared
