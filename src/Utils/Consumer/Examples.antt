-- ===== src/Utils/Consumer/Examples.antt =====
-- The consumer at concrete inputs (src/utils/kafkaConsumer.py).
use agentic_resident_crm.Prelude.{
  ℕ, true, false, String, List, [], ◌∷◌, none, some, All, string_eq, ◌==◌, nat_eq, ◌≡◌, refl, ◌++◌,
  if◌then◌else◌,
}
use agentic_resident_crm.Prelude.{codes, arith}
use agentic_resident_crm.Utils.Consumer.Adapters.{
  DltBody, accepted, Reading, DltRecord, is_republished, parse, dlt_adapter,
}
use agentic_resident_crm.Dlt.Identity.Digits.{pos}
use agentic_resident_crm.Utils.Consumer.Dispatch.{IsBodyOf, dlt_adapter-IsDispatched}
use agentic_resident_crm.Utils.Consumer.Messages.{tracks, submits}
use agentic_resident_crm.Utils.Consumer.Cycle.{Turn, Rebalance, assigned, revoked, poll_once}
use agentic_resident_crm.Utils.Consumer.Polling.{poll_once-IsStopped}
use agentic_resident_crm.Utils.Consumer.Ends.{IsStopped}
use agentic_resident_crm.Storage.{answered}
use agentic_resident_crm.Utils.Consumer.Sets.{find}
use agentic_resident_crm.Utils.Consumer.Tracker.{
  set_completed, take_committable, committable_for, take_from, retired, set_abandoned,
}
use agentic_resident_crm.Utils.Consumer.Messages.{
  MessageAdapter, forwarded, failed, handle_one_message, handle_parsed, skipped_or,
  process_and_commit,
}
use agentic_resident_crm.Utils.Consumer.State.{
  Message, Consumer, started, commit_ready_offsets, on_partitions_revoked,
}
use agentic_resident_crm.Utils.Consumer.Loop.{
  Move, takes, continues, works, fetches, run, move, dispatched_next, carried_on, worked, perform,
}
use agentic_resident_crm.Utils.Consumer.Floor.{IsFloor}
use agentic_resident_crm.Utils.Consumer.Runs.{run-IsFloor, reached}
use agentic_resident_crm.Utils.Consumer.Semaphore.{run-slots, all_slots}
use agentic_resident_crm.Utils.Consumer.Drain.{commit_ready_offsets-refused}
use agentic_resident_crm.Utils.Consumer.LowWater.{IsLowWater, take_committable-IsLowWater}
use agentic_resident_crm.Utils.Consumer.Rebalance.{on_partitions_revoked-IsForgotten}

-- An adapter whose records are their own bodies; the empty one is poison.
abbrev plain : MessageAdapter String String
plain = record {
  parse = λ m. answered (
      if m == ""
      then record { body = none; raw_text = some m; error = some "empty" }
      else record { body = some m; raw_text = some m; error = none });
  should_skip = λ b. answered none;
  identity_of = λ b. some b;
  empty = "";
}

abbrev message : ℕ → String → Message String String
message o value = record { tp = "rejections-0"; offset = o; value = value }

-- Two messages are handed out, the first fails and the second is answered, in the other order.
abbrev moves : List (Move String String)
moves =
    fetches (message 10 "a" ∷ message 11 "b" ∷ message 12 "" ∷ [])
    ∷ takes true true
    ∷ continues failed true
    ∷ continues failed true
    ∷ continues failed true
    ∷ takes true true
    ∷ continues forwarded true
    ∷ continues forwarded true
    ∷ continues forwarded true
    ∷ works 0
    ∷ works 0
    ∷ works 0
    ∷ works 1
    ∷ []

abbrev here : Consumer String String String
here = reached plain 2 moves

-- Once the first is abandoned the drain commits past both.
abbrev settled_both : Consumer String String String
settled_both = reached plain 2 (moves ++ works 1 ∷ [])

waits : (take_committable here.tracker).0 ≡ []
unfolding run move dispatched_next carried_on worked perform started handle_one_message
    handle_parsed skipped_or process_and_commit set_completed set_abandoned take_committable
    take_from
waits = refl

commits : (take_committable settled_both.tracker).0 ≡ ("rejections-0", 12) ∷ []
unfolding run move dispatched_next carried_on worked perform started handle_one_message
    handle_parsed skipped_or process_and_commit set_completed set_abandoned take_committable
    take_from retired
commits = refl

run-IsFloor_example :
    All (IsFloor settled_both.handed settled_both.settled) (take_committable settled_both.tracker).0
    × All
        (IsFloor settled_both.handed settled_both.settled)
        (committable_for ("rejections-0" ∷ []) settled_both.tracker).0
run-IsFloor_example = run-IsFloor plain 2 (moves ++ works 1 ∷ []) ("rejections-0" ∷ [])

run-slots_example : all_slots here ≡ 2
run-slots_example = run-slots plain 2 moves

commit_ready_offsets-refused_example :
    (commit_ready_offsets true (commit_ready_offsets false settled_both)).committed
    ≡ settled_both.committed
commit_ready_offsets-refused_example = commit_ready_offsets-refused true settled_both

take_committable-IsLowWater_example :
    IsLowWater "rejections-0" settled_both.tracker
      (find "rejections-0" (take_committable settled_both.tracker).0)
take_committable-IsLowWater_example =
    take_committable-IsLowWater settled_both.tracker "rejections-0"

on_partitions_revoked-IsForgotten_example :
    let after = on_partitions_revoked ("rejections-0" ∷ []) true here in
    All (λ m. (m.tp == "rejections-0") ≡ false) after.backlog
    × (set_completed "rejections-0" 10 after.tracker ≡ after.tracker)
on_partitions_revoked-IsForgotten_example =
    on_partitions_revoked-IsForgotten ("rejections-0" ∷ []) true here "rejections-0" 10 refl

abbrev unread : Reading
unread = record {
  original_topic = none;
  original_partition = none;
  original_offset = none;
  consumer_group = none;
  ref_id = none;
  invalid = none;
}

-- A dead letter without usable headers, its own coordinates standing in.
abbrev headerless : DltRecord
headerless = record {
  topic = codes "orders.DLT";
  partition = pos 2;
  offset = pos 40;
  raw_text = none;
  payload = none;
  reading = answered unread;
}

dlt_adapter-IsDispatched_example :
    (body : DltBody) × (handle_one_message
        (dlt_adapter (λ t. codes "00f1a2b3c4") (λ i. answered false) (λ t. "key"))
        headerless
        true
        true
      ≡ tracks ∷ submits body ∷ [])
    × IsBodyOf
        (λ t. codes "00f1a2b3c4")
        (λ t. refl)
        (λ t. refl)
        (is_republished headerless.payload)
        headerless
        body
dlt_adapter-IsDispatched_example =
    dlt_adapter-IsDispatched (λ t. codes "00f1a2b3c4") (λ t. refl) (λ t. refl) (λ i. answered false)
      (λ t. "key") headerless true (omega arith) (unread, refl, refl) (λ i. refl)

-- A message that the fetch stage put on the analysis queue.
abbrev fetched_before : DltBody
fetched_before = record { case_id = some (codes "dlt-orders-0-7"); ref_id = none }

abbrev from_queue : DltRecord
from_queue = record headerless {
  payload = some (record {
    is_dictionary = true;
    keys = "case_id" ∷ "headers" ∷ [];
    message = accepted fetched_before;
  });
}

keeps_its_id :
    handle_one_message
      (dlt_adapter (λ t. codes "00f1a2b3c4") (λ i. answered false) (λ t. "key"))
      from_queue
      true
      true
    ≡ tracks ∷ submits fetched_before ∷ []
unfolding handle_one_message handle_parsed skipped_or parse
keeps_its_id = refl

abbrev answered_turn : Turn
answered_turn = record { accepted = true; delivered = true; outcome = forwarded; sent = true }

-- Three messages and two worker slots.
abbrev waiting : Consumer String String String
waiting = reached plain 2 (fetches (message 10 "a" ∷ message 11 "" ∷ message 12 "c" ∷ []) ∷ [])

-- A cycle within which the partition is taken away and comes back with one message more.
abbrev changes : List (Rebalance String)
changes = revoked ("rejections-0" ∷ []) true ∷ assigned ("rejections-0" ∷ []) ∷ []

abbrev four_turns : List Turn
four_turns = answered_turn ∷ answered_turn ∷ answered_turn ∷ answered_turn ∷ []

poll_once-IsStopped_example :
    let after =
      run plain
        (poll_once true (answered_turn ∷ []) changes (message 13 "d" ∷ []) four_turns)
        waiting in
    IsStopped plain after × (after.handling ≡ none)
unfolding run move started
poll_once-IsStopped_example =
    poll_once-IsStopped plain true (answered_turn ∷ []) changes (message 13 "d" ∷ []) four_turns
      waiting refl (omega arith)
