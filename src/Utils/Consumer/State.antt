-- ===== src/Utils/Consumer/State.antt =====
-- What the consumer of src/utils/kafkaConsumer.py keeps, and its commits and rebalances.
use agentic_resident_crm.Prelude.{
  ℕ, zero, suc, Bool, false, not, List, [], ◌∷◌, ◌++◌, Option, none, some, if◌then◌else◌, Eq,
  contains, keep,
}
use agentic_resident_crm.Utils.Consumer.Tracker.{
  Tracker, tracked_partitions, take_committable, committable_for, forget,
}
use agentic_resident_crm.Utils.Consumer.Messages.{Effect, first_of, rest_of}

pub record Message (Tp : Type 0) (Msg : Type 0) : Type 0 where
  pub tp : Tp
  pub offset : ℕ
  pub value : Msg

-- A thread's work on one message: the effects that are left.
pub record Task (Tp : Type 0) (Body : Type 0) : Type 0 where
  pub tp : Tp
  pub offset : ℕ
  pub left : List (Effect Body)

-- `handed` and `settled` record what has happened: the messages handed out since their partition was
-- assigned, and those that were forwarded, skipped or delivered to the dead-letter queue.
-- `committed` is what the broker accepted, the last first.
pub record Consumer (Tp : Type 0) (Msg : Type 0) (Body : Type 0) : Type 0 where
  pub tracker : Tracker Tp
  pub backlog : List (Message Tp Msg)
  pub slots : ℕ
  pub draining : Bool
  pub handling : Option (Task Tp Body)
  pub workers : List (Task Tp Body)
  pub committed : List (Tp × ℕ)
  pub handed : List (Tp × ℕ)
  pub settled : List (Tp × ℕ)

-- The consumer as the process starts, with its worker slots free.
unfoldable pub started : {Tp Msg Body : Type 0} → ℕ → Consumer Tp Msg Body
started max_concurrent = record {
  tracker = record { dispatched = []; completed = [] };
  backlog = [];
  slots = max_concurrent;
  draining = false;
  handling = none;
  workers = [];
  committed = [];
  handed = [];
  settled = [];
}

module _ {Tp Body : Type 0} where
  abbrev pub at_task : Task Tp Body → Option (Effect Body) → Option (Effect Body × (Tp × ℕ))
  at_task w none = none
  at_task w (some e) = some (e, (w.tp, w.offset))

  -- The next effect of the worker with this number, and the workers once it is done.
  abbrev pub due : ℕ → List (Task Tp Body) → Option (Effect Body × (Tp × ℕ))
  due n [] = none
  due zero (w ∷ ws) = at_task w (first_of w.left)
  due (suc n) (w ∷ ws) = due n ws

  abbrev pub advanced : ℕ → List (Task Tp Body) → List (Task Tp Body)
  advanced n [] = []
  advanced zero (w ∷ ws) = record w { left = rest_of w.left } ∷ ws
  advanced (suc n) (w ∷ ws) = w ∷ advanced n ws

module _ {Tp : Type 0} where
  -- What the broker has after a commit that it accepts, or refuses.
  abbrev pub accepted_by : Bool → List (Tp × ℕ) → List (Tp × ℕ) → List (Tp × ℕ)
  accepted_by ok commits before = if ok then commits ++ before else before

module _ {Tp : Type 0} ⦃eq : Eq Tp⦄ where
  abbrev pub without : List Tp → List (Tp × ℕ) → List (Tp × ℕ)
  without lost handed = keep (λ h. not (contains lost h.0)) handed

module _ {Tp Msg : Type 0} ⦃eq : Eq Tp⦄ where
  abbrev pub drop_backlog : List Tp → List (Message Tp Msg) → List (Message Tp Msg)
  drop_backlog lost backlog = keep (λ m. not (contains lost m.tp)) backlog

module _ {Tp Msg Body : Type 0} where
  abbrev pub settle : Tp → ℕ → Consumer Tp Msg Body → Consumer Tp Msg Body
  settle tp o c = record c { settled = (tp, o) ∷ c.settled }

  -- A move of the loop's thread that needs it between two messages.
  abbrev pub idle :
      Option (Task Tp Body) → Consumer Tp Msg Body → Consumer Tp Msg Body → Consumer Tp Msg Body
  idle none next c = next
  idle (some task) next c = c

module _ {Tp Msg Body : Type 0} ⦃eq : Eq Tp⦄ where
  unfoldable pub commit_ready_offsets : Bool → Consumer Tp Msg Body → Consumer Tp Msg Body
  commit_ready_offsets ok c =
      let (commits, left) = take_committable c.tracker in
      record c { tracker = left; committed = accepted_by ok commits c.committed }

  unfoldable pub on_partitions_revoked :
      List Tp → Bool → Consumer Tp Msg Body → Consumer Tp Msg Body
  on_partitions_revoked revoked ok c =
      let (commits, left) = committable_for revoked c.tracker in
      record c {
        backlog = drop_backlog revoked c.backlog;
        tracker = forget revoked left;
        committed = accepted_by ok commits c.committed;
        handed = without revoked c.handed;
      }

  unfoldable pub on_partitions_assigned : List Tp → Consumer Tp Msg Body → Consumer Tp Msg Body
  on_partitions_assigned assigned c =
      let stale = keep (contains assigned) (tracked_partitions c.tracker) in
      record c { tracker = forget stale c.tracker; handed = without stale c.handed }
