-- ===== src/Dlt/Reuse.antt =====
-- Whether a dead letter needs a model call, src/dlt/reuse.py, and what of its group it looks at,
-- `has_usable_recommendation` and `describes_one_occurrence` of src/dlt/groups.py.
pub mod Policy
mod Examples
use agentic_resident_crm.Prelude.{
  ℕ, Bool, true, false, not, ◌&&◌, ◌||◌, String, List, Option, none, some, if◌then◌else◌, any,
}
use agentic_resident_crm.Dlt.Findings.{
  FailureClass, business, Verdict, corroborated, partial, Action, Label, contradicted_label, truthy,
  is_discrepancy,
}

pub data Decision : Type 0 where
  llm_required reuse_group canned : Decision

pub data GroupState : Type 0 where
  no_state draft final unpersisted withheld per_occurrence : GroupState

-- A cached recommendation that is not empty, with the two fields that are read where it is a
-- dictionary.
pub data Cached : Type 0 where
  structured : Option String → List Label → Cached
  unstructured : Cached

pub record Group : Type 0 where
  pub recommendation : Option Cached
  pub recommendation_state : GroupState
  pub recommendation_corroboration : Option Verdict

abbrev pub is_contradicted : Label → Bool
is_contradicted contradicted_label = true
is_contradicted _ = false

abbrev pub is_discrepant : Option Verdict → Bool
is_discrepant none = false
is_discrepant (some v) = is_discrepancy v

abbrev pub marked : Option Cached → Bool
marked none = false
marked (some unstructured) = false
marked (some (structured discrepancy ceilings)) = truthy discrepancy || any is_contradicted ceilings

unfoldable pub describes_one_occurrence : Group → Bool
describes_one_occurrence g = is_discrepant g.recommendation_corroboration || marked g.recommendation

abbrev pub is_cached : Option Cached → Bool
is_cached none = false
is_cached (some _) = true

abbrev pub is_served : GroupState → Bool
is_served draft = true
is_served final = true
is_served _ = false

unfoldable pub has_usable_recommendation : Option Group → Bool
unfolding describes_one_occurrence
has_usable_recommendation none = false
has_usable_recommendation (some g) =
    is_cached g.recommendation
    && is_served g.recommendation_state
    && not (describes_one_occurrence g)

pub data Reason : Type 0 where
  fixed_treatment : FailureClass → Reason
  discrepancy_leads : Verdict → Reason
  reuse_disabled novel corroborated_hit unverified_hit : Reason

pub record ReuseDecision : Type 0 where
  pub decision : Decision
  pub reason : Reason
  pub awaits_cache : Bool

abbrev pub calls_llm : ReuseDecision → Bool
calls_llm d = needed d.decision
  where
    needed : Decision → Bool
    needed llm_required = true
    needed _ = false

abbrev pub decided : Decision → Reason → Bool → ReuseDecision
decided d r w = record { decision = d; reason = r; awaits_cache = w }

abbrev pub is_corroborated : Verdict → Bool
is_corroborated corroborated = true
is_corroborated _ = false

abbrev pub is_business : FailureClass → Bool
is_business business = true
is_business _ = false

unfoldable pub decide : Bool → FailureClass → Verdict → Option Group → ReuseDecision
unfolding has_usable_recommendation
decide reuse_enabled failure_class verdict group =
    if not (is_business failure_class)
    then decided canned (fixed_treatment failure_class) false
    else if is_discrepancy verdict
    then decided llm_required (discrepancy_leads verdict) false
    else if not reuse_enabled
    then decided llm_required reuse_disabled false
    else if not (has_usable_recommendation group)
    then decided llm_required novel true
    else if is_corroborated verdict
    then decided reuse_group corroborated_hit false
    else decided reuse_group unverified_hit false
