-- ===== src/Dlt/AutoReplay.antt =====
-- The automatic replay of a dead letter, src/dlt/auto_replay.py: `decide`, `_code_check_veto`,
-- `attempt` and `maybe_replay`. What the module reads from the environment are the fields of
-- `ReplaySettings`; the tool `queue_for_replay` is the argument `tool`, of which the lane reads
-- the returned text or the exception, and the calls that reach it are kept in their order.
pub mod Gate
pub mod Outcome
mod Examples
use agentic_resident_crm.Prelude.{
  ℕ, Bool, true, false, not, ◌&&◌, String, Text, List, [], ◌∷◌, ◌++◌, Option, none, some,
  if◌then◌else◌, any, contains, codes, starts_with,
}
use agentic_resident_crm.Floats.{Floats}
use agentic_resident_crm.Dlt.Findings.{
  Action, action_eq, DltFinding, is_unverifiable, is_unreviewed, truthy, CheckVerdict, no_change,
  not_deployed, fix_deployed, undecided,
}

pub record ReplaySettings (floats : Floats) : Type 0 where
  pub auto_replay_enabled : Bool
  pub confidence_threshold : floats.Float
  pub replay_actions : List Action
  pub allow_unverified : Bool
  pub code_check_gates_replay : Bool
  pub id_type : String
  pub operator_name : String
  pub replay_category : String
  pub replay_priority : ℕ
  pub from_seda_start : Bool

-- What the gate reads of a precheck (`CodeCheck` of src/dlt/code_check.py).
pub record CodeCheck : Type 0 where
  pub verdict : CheckVerdict
  pub reason : Text
  pub repo : Option Text
  pub path : Option Text
  pub baseline_version : Option Text
  pub running_version : Option Text
  pub required_version : Option Text

pub data Reason (floats : Floats) : Type 0 where
  disabled : Reason floats
  action_not_listed : Action → Reason floats
  no_confidence : Reason floats
  below_threshold : floats.Float → floats.Float → Reason floats
  unverified_finding : Reason floats
  unreviewed_finding : Reason floats
  no_ref_id : Reason floats
  nothing_changed : Text → Reason floats
  change_not_running : Option Text → Text → Reason floats
  clears_threshold : Action → floats.Float → floats.Float → Reason floats

pub record ReplayDecision (floats : Floats) : Type 0 where
  pub should_replay : Bool
  pub reason : Reason floats

-- The arguments of `queue_for_replay`.
pub record ReplayArgs : Type 0 where
  pub id : String
  pub id_type : String
  pub priority : ℕ
  pub operator_name : String
  pub category : String
  pub from_seda_start : Bool

pub data ToolOutcome : Type 0 where
  returned : String → ToolOutcome
  raised : String → ToolOutcome

pub data AttemptResult : Type 0 where
  no_identifier : AttemptResult
  tool_said : String → AttemptResult
  tool_raised : String → AttemptResult

pub record Attempt : Type 0 where
  pub queued : Bool
  pub result : AttemptResult
  pub args : Option ReplayArgs

pub record Replay (floats : Floats) : Type 0 where
  pub attempted : Bool
  pub reason : Reason floats
  pub queued : Bool
  pub result : Option AttemptResult
  pub args : Option ReplayArgs

module _ (floats : Floats) (settings : ReplaySettings floats) where
  open floats use {Float, below}

  abbrev pub refuse : Reason floats → ReplayDecision floats
  refuse reason = record { should_replay = false; reason = reason }

  unfoldable pub veto_of : CodeCheck → CheckVerdict → Option (Reason floats)
  veto_of check no_change = some (nothing_changed check.reason)
  veto_of check not_deployed = some (change_not_running check.required_version check.reason)
  veto_of check fix_deployed = none
  veto_of check undecided = none

  unfoldable pub code_check_veto : Option CodeCheck → Option (Reason floats)
  unfolding veto_of
  code_check_veto none = none
  code_check_veto (some check) =
      if settings.code_check_gates_replay then veto_of check check.verdict else none

  unfoldable pub last_word : Option (Reason floats) → Reason floats → ReplayDecision floats
  last_word (some veto) clears = refuse veto
  last_word none clears = record { should_replay = true; reason = clears }

  -- From the threshold on, at a finding with the confidence `c`.
  unfoldable pub decide_scored :
      DltFinding floats → Option String → Option CodeCheck → Float → ReplayDecision floats
  unfolding code_check_veto last_word
  decide_scored finding ref_id check c =
      if below c settings.confidence_threshold
      then refuse (below_threshold c settings.confidence_threshold)
      else if any is_unverifiable finding.ceilings_applied && not settings.allow_unverified
      then refuse unverified_finding
      else if any is_unreviewed finding.ceilings_applied
      then refuse unreviewed_finding
      else if not (truthy ref_id)
      then refuse no_ref_id
      else last_word (code_check_veto check)
          (clears_threshold finding.action c settings.confidence_threshold)

  unfoldable pub decide_confidence :
      DltFinding floats → Option String → Option CodeCheck → Option Float → ReplayDecision floats
  unfolding decide_scored
  decide_confidence finding ref_id check none = refuse no_confidence
  decide_confidence finding ref_id check (some c) = decide_scored finding ref_id check c

  unfoldable pub decide :
      DltFinding floats → Option String → Option CodeCheck → ReplayDecision floats
  unfolding decide_confidence
  decide finding ref_id check =
      if not settings.auto_replay_enabled
      then refuse disabled
      else if not (contains settings.replay_actions finding.action)
      then refuse (action_not_listed finding.action)
      else decide_confidence finding ref_id check finding.confidence

  -- `replay_succeeded` of src/tools/tool_registry.py.
  unfoldable pub replay_succeeded : String → Bool
  replay_succeeded result = starts_with (codes result) (codes "Successfully")

  -- `tool.invoke(args)`: what the tool answers, and all the calls that have reached it.
  abbrev pub invoke :
      (ReplayArgs → ToolOutcome) → ReplayArgs → List ReplayArgs → ToolOutcome × List ReplayArgs
  invoke tool args calls = (tool args, calls ++ args ∷ [])

  unfoldable pub attempt_with :
      ReplayArgs → ToolOutcome × List ReplayArgs → Attempt × List ReplayArgs
  unfolding replay_succeeded
  attempt_with args (returned result, calls) = (
    record { queued = replay_succeeded result; result = tool_said result; args = some args },
    calls,
  )
  attempt_with args (raised error, calls) =
      (record { queued = false; result = tool_raised error; args = some args }, calls)

  unfoldable pub args_for : String → ReplayArgs
  args_for ref = record {
    id = ref;
    id_type = settings.id_type;
    priority = settings.replay_priority;
    operator_name = settings.operator_name;
    category = settings.replay_category;
    from_seda_start = settings.from_seda_start;
  }

  abbrev pub nameless : Attempt
  nameless = record { queued = false; result = no_identifier; args = none }

  unfoldable pub attempt :
      (ReplayArgs → ToolOutcome) → Option String → List ReplayArgs → Attempt × List ReplayArgs
  attempt tool none calls = (nameless, calls)
  attempt tool (some ref) calls =
      if truthy (some ref)
      then attempt_with (args_for ref) (invoke tool (args_for ref) calls)
      else (nameless, calls)

  abbrev pub reported : Reason floats → Attempt × List ReplayArgs → Replay floats × List ReplayArgs
  reported reason (outcome, calls) = (
    record {
      attempted = true;
      reason = reason;
      queued = outcome.queued;
      result = some outcome.result;
      args = outcome.args;
    },
    calls,
  )

  -- `attempt` is called only once the decision is made.
  abbrev pub replay_if :
      (ReplayArgs → ToolOutcome)
      → Option String
      → Reason floats
      → Bool
      → List ReplayArgs
      → Replay floats × List ReplayArgs
  replay_if tool ref_id reason false calls = (
    record { attempted = false; reason = reason; queued = false; result = none; args = none },
    calls,
  )
  replay_if tool ref_id reason true calls = reported reason (attempt tool ref_id calls)

  unfoldable pub maybe_replay :
      (ReplayArgs → ToolOutcome)
      → Option String
      → DltFinding floats
      → Option CodeCheck
      → List ReplayArgs
      → Replay floats × List ReplayArgs
  maybe_replay tool ref_id finding check calls =
      let decision = decide finding ref_id check in
      replay_if tool ref_id decision.reason decision.should_replay calls
