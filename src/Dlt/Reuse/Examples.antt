-- ===== src/Dlt/Reuse/Examples.antt =====
-- The reuse policy of src/dlt/reuse.py at sample groups.
use agentic_resident_crm.Prelude.{true, [], none, some, ◌≡◌, ◌≢◌, ◌↔◌}
use agentic_resident_crm.Dlt.Findings.{business, corroborated, partial, contradicted}
use agentic_resident_crm.Dlt.Reuse.{Group, GroupState, structured, decide, reuse_group}
use agentic_resident_crm.Dlt.Reuse.Policy.{IsUsable, reuse_iff}

abbrev group : Group
group = record {
  recommendation = some (structured none []);
  recommendation_state = GroupState.draft;
  recommendation_corroboration = some corroborated;
}

reuse_iff_example : ((decide true business corroborated (some group)).decision ≡ reuse_group) ↔ (
    (business ≡ business)
    × ((corroborated ≢ partial) × (corroborated ≢ contradicted))
    × (true ≡ true)
    × IsUsable (some group))
reuse_iff_example = reuse_iff true business corroborated (some group)
