-- ===== src/Utils/Consumer/Loop.antt =====
-- The poll loop, its workers and the rebalances of src/utils/kafkaConsumer.py. The threads are
-- interleaved between the effects of Messages, and a run is the list of the moves made, each with
-- the answers its calls get. A move that the code cannot make in a state leaves the state.
use agentic_resident_crm.Prelude.{
  ℕ, zero, suc, Bool, true, false, List, [], ◌∷◌, ◌++◌, Option, none, some, if◌then◌else◌, Eq,
}
use agentic_resident_crm.Utils.Consumer.Tracker.{set_dispatched, set_completed, set_abandoned}
use agentic_resident_crm.Utils.Consumer.State.{
  Message, Task, Consumer, due, advanced, settle, idle, commit_ready_offsets, on_partitions_revoked,
  on_partitions_assigned,
}
use agentic_resident_crm.Utils.Consumer.Messages.{
  forwarded, MessageAdapter, Effect, Forwarding, tracks, completes, abandons, publishes, forwards,
  skips, saves, releases, submits, handle_one_message, process_and_commit,
}

-- `takes` is one turn of `_dispatch_backlog`, whose answers are the pool's and the dead-letter
-- queue's; `continues` and `works` are one effect of the loop's thread and of a worker's; `drains`
-- is `_commit_ready_offsets` and `fetches` what `poll` returns.
pub data Move (Tp : Type 0) (Msg : Type 0) : Type 0 where
  takes : Bool → Bool → Move Tp Msg
  continues : Forwarding → Bool → Move Tp Msg
  works : ℕ → Move Tp Msg
  drains : Bool → Move Tp Msg
  fetches : List (Message Tp Msg) → Move Tp Msg
  revokes : List Tp → Bool → Move Tp Msg
  assigns : List Tp → Move Tp Msg
  stops : Move Tp Msg

module _ {Tp Msg Body : Type 0} ⦃eq : Eq Tp⦄ (adapter : MessageAdapter Msg Body) where
  abbrev pub worker : Tp → ℕ → Body → Forwarding → Bool → Task Tp Body
  worker tp o body outcome delivered = record {
    tp = tp;
    offset = o;
    left = process_and_commit (adapter.identity_of body) outcome delivered;
  }

  -- One effect on the shared state. The answers are those the worker that is submitted will get.
  unfoldable pub perform :
      Forwarding → Bool → Effect Body → Tp → ℕ → Consumer Tp Msg Body → Consumer Tp Msg Body
  perform outcome delivered tracks tp o c = record c {
    tracker = set_dispatched tp o c.tracker;
    handed = (tp, o) ∷ c.handed;
  }
  perform outcome delivered completes tp o c = record c { tracker = set_completed tp o c.tracker }
  perform outcome delivered abandons tp o c = record c { tracker = set_abandoned tp o c.tracker }
  perform outcome delivered publishes tp o c = settle tp o c
  perform outcome delivered forwards tp o c = settle tp o c
  perform outcome delivered skips tp o c = settle tp o c
  perform outcome delivered saves tp o c = c
  perform outcome delivered releases tp o c = record c { slots = suc c.slots }
  perform outcome delivered (submits body) tp o c = record c {
    workers = worker tp o body outcome delivered ∷ c.workers;
  }

  abbrev pub handled : Message Tp Msg → Bool → Bool → Task Tp Body
  handled m accepted delivered = record {
    tp = m.tp;
    offset = m.offset;
    left = handle_one_message adapter m.value accepted delivered;
  }

  unfoldable pub dispatched_next :
      List (Message Tp Msg) → ℕ → Bool → Bool → Consumer Tp Msg Body → Consumer Tp Msg Body
  dispatched_next [] slots accepted delivered c = c
  dispatched_next (m ∷ rest) zero accepted delivered c = c
  dispatched_next (m ∷ rest) (suc slots) accepted delivered c = record c {
    backlog = rest;
    slots = slots;
    handling = some (handled m accepted delivered);
  }

  unfoldable pub carried_on :
      Forwarding → Bool → Tp → ℕ → List (Effect Body) → Consumer Tp Msg Body → Consumer Tp Msg Body
  carried_on outcome delivered tp o [] c = record c { handling = none }
  carried_on outcome delivered tp o (e ∷ left) c =
      perform outcome delivered e tp o
        (record c { handling = some (record { tp = tp; offset = o; left = left }) })

  unfoldable pub worked :
      Option (Effect Body × (Tp × ℕ)) → ℕ → Consumer Tp Msg Body → Consumer Tp Msg Body
  worked none n c = c
  worked (some (e, (tp, o))) n c =
      perform forwarded false e tp o (record c { workers = advanced n c.workers })

  abbrev pub in_hand :
      Forwarding → Bool → Option (Task Tp Body) → Consumer Tp Msg Body → Consumer Tp Msg Body
  in_hand outcome delivered none c = c
  in_hand outcome delivered (some t) c = carried_on outcome delivered t.tp t.offset t.left c

  unfoldable pub move : Move Tp Msg → Consumer Tp Msg Body → Consumer Tp Msg Body
  move (takes accepted delivered) c =
      if c.draining
      then c
      else idle c.handling (dispatched_next c.backlog c.slots accepted delivered c) c
  move (continues outcome delivered) c = in_hand outcome delivered c.handling c
  move (works n) c = worked (due n c.workers) n c
  move (drains ok) c = idle c.handling (commit_ready_offsets ok c) c
  move (fetches messages) c = idle c.handling (record c { backlog = c.backlog ++ messages }) c
  move (revokes revoked ok) c = idle c.handling (on_partitions_revoked revoked ok c) c
  move (assigns assigned) c = idle c.handling (on_partitions_assigned assigned c) c
  move stops c = record c { draining = true }

  unfoldable pub run : List (Move Tp Msg) → Consumer Tp Msg Body → Consumer Tp Msg Body
  run [] c = c
  run (m ∷ ms) c = run ms (move m c)
