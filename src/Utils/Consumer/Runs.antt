-- ===== src/Utils/Consumer/Runs.antt =====
-- What every run of the consumer keeps in every order of its threads' effects (src/utils/kafkaConsumer.py).
use agentic_resident_crm.Prelude.{
  ℕ, Bool, true, false, ◌||◌, List, [], ◌∷◌, Option, none, some, All, Eq, nat_eq, contains, ◌≡◌,
  arith, if◌then◌else◌,
}
use agentic_resident_crm.Utils.Consumer.Tracker.{offsets, take_committable, committable_for}
use agentic_resident_crm.Utils.Consumer.Messages.{MessageAdapter, Forwarding}
use agentic_resident_crm.Utils.Consumer.State.{
  Task, Consumer, due, idle, started, commit_ready_offsets, on_partitions_revoked,
  on_partitions_assigned,
}
use agentic_resident_crm.Utils.Consumer.Loop.{
  Move, takes, continues, works, drains, fetches, revokes, assigns, stops, dispatched_next, in_hand,
  move, run,
}
use agentic_resident_crm.Utils.Consumer.Account.{has}
use agentic_resident_crm.Utils.Consumer.Threads.{IsJustifiedIn, due-IsDue}
use agentic_resident_crm.Utils.Consumer.Floor.{
  IsFloor, take_committable-IsFloor, committable_for-IsFloor,
}
use agentic_resident_crm.Utils.Consumer.Safe.{
  IsSafe, carried_on-IsSafe, worked-IsSafe, dispatched_next-IsSafe, commit_ready_offsets-IsSafe,
  on_partitions_revoked-IsSafe, on_partitions_assigned-IsSafe,
}

module _ {Tp Msg Body : Type 0} ⦃eq : Eq Tp⦄ where
  if-IsSafe :
      (b : Bool) (x y : Consumer Tp Msg Body) → IsSafe x → IsSafe y → IsSafe (if b then x else y)
  if-IsSafe true x y hx hy = hx
  if-IsSafe false x y hx hy = hy

  idle-IsSafe :
      (task : Option (Task Tp Body)) (next c : Consumer Tp Msg Body)
      → IsSafe next
      → IsSafe c
      → IsSafe (idle task next c)
  idle-IsSafe none next c later safe = later
  idle-IsSafe (some task) next c later safe = safe

  started-IsSafe :
      (max_concurrent : ℕ) → IsSafe {Tp = Tp} {Msg = Msg} {Body = Body} (started max_concurrent)
  unfolding started
  started-IsSafe max_concurrent = record {
    accounts = record { done = λ tp o h. ground arith; kept = λ tp o h. ground arith };
    working = tt;
    in_order = tt;
  }

module _ {Tp Msg Body : Type 0} ⦃eq : Eq Tp⦄ (adapter : MessageAdapter Msg Body) where
  in_hand-IsSafe :
      (outcome : Forwarding) (delivered : Bool) (task : Option (Task Tp Body))
      (c : Consumer Tp Msg Body)
      → IsSafe c
      → IsJustifiedIn c.settled task
      → IsSafe (in_hand adapter outcome delivered task c)
  in_hand-IsSafe outcome delivered none c safe h = safe
  in_hand-IsSafe outcome delivered (some t) c safe h =
      carried_on-IsSafe adapter outcome delivered t.tp t.offset t.left c safe h

  move-IsSafe : (m : Move Tp Msg) (c : Consumer Tp Msg Body) → IsSafe c → IsSafe (move adapter m c)
  unfolding move
  move-IsSafe (takes accepted delivered) c safe =
      if-IsSafe c.draining c
        (idle c.handling (dispatched_next adapter c.backlog c.slots accepted delivered c) c) safe
        (idle-IsSafe c.handling (dispatched_next adapter c.backlog c.slots accepted delivered c) c
          (dispatched_next-IsSafe adapter c.backlog c.slots accepted delivered c safe) safe)
  move-IsSafe (continues outcome delivered) c safe =
      in_hand-IsSafe outcome delivered c.handling c safe safe.in_order
  move-IsSafe (works n) c safe =
      worked-IsSafe adapter (due n c.workers) n c safe
        (due-IsDue n c.settled c.workers safe.working)
  move-IsSafe (drains ok) c safe =
      idle-IsSafe c.handling (commit_ready_offsets ok c) c (commit_ready_offsets-IsSafe ok c safe)
        safe
  move-IsSafe (fetches messages) c safe =
      idle-IsSafe c.handling _ c
        (record { accounts = safe.accounts; working = safe.working; in_order = safe.in_order }) safe
  move-IsSafe (revokes revoked ok) c safe =
      idle-IsSafe c.handling (on_partitions_revoked revoked ok c) c
        (on_partitions_revoked-IsSafe revoked ok c safe) safe
  move-IsSafe (assigns assigned) c safe =
      idle-IsSafe c.handling (on_partitions_assigned assigned c) c
        (on_partitions_assigned-IsSafe assigned c safe) safe
  move-IsSafe stops c safe = record {
    accounts = safe.accounts;
    working = safe.working;
    in_order = safe.in_order;
  }

  run-IsSafe :
      (moves : List (Move Tp Msg)) (c : Consumer Tp Msg Body)
      → IsSafe c
      → IsSafe (run adapter moves c)
  unfolding run
  run-IsSafe [] c safe = safe
  run-IsSafe (m ∷ ms) c safe = run-IsSafe ms (move adapter m c) (move-IsSafe m c safe)

  abbrev pub reached : ℕ → List (Move Tp Msg) → Consumer Tp Msg Body
  reached max_concurrent moves = run adapter moves (started max_concurrent)

  -- Whatever the threads did and in whichever order, with rebalances, refused commits and failures of
  -- the storage, the pool, the endpoint and the dead-letter queue: no position that a drain or a
  -- revocation offers for commit lies above a message that was handed out since its partition was
  -- assigned and was neither forwarded, skipped nor delivered to the dead-letter queue.
  pub run-IsFloor :
      (max_concurrent : ℕ) (moves : List (Move Tp Msg)) (revoked : List Tp)
      → let c = reached max_concurrent moves in
        All (IsFloor c.handed c.settled) (take_committable c.tracker).0
        × All (IsFloor c.handed c.settled) (committable_for revoked c.tracker).0
  run-IsFloor max_concurrent moves revoked =
      let c = reached max_concurrent moves in
      let safe = run-IsSafe moves (started max_concurrent) (started-IsSafe max_concurrent) in
      (
        (take_committable-IsFloor c.handed c.settled c.tracker safe.accounts).0,
        (committable_for-IsFloor c.handed c.settled revoked c.tracker safe.accounts).0,
      )

  -- In every state a run reaches, a message handed out since its partition was assigned is dispatched
  -- still, or was forwarded, skipped or delivered to the dead-letter queue.
  pub run-IsAccounted :
      (max_concurrent : ℕ) (moves : List (Move Tp Msg)) (tp : Tp) (o : ℕ)
      → has (reached max_concurrent moves).handed tp o ≡ true
      → (contains (offsets tp (reached max_concurrent moves).tracker.dispatched) o
          || has (reached max_concurrent moves).settled tp o)
        ≡ true
  run-IsAccounted max_concurrent moves tp o h =
      (run-IsSafe moves (started max_concurrent) (started-IsSafe max_concurrent)).accounts.kept tp o
        h
