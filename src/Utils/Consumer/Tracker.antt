-- ===== src/Utils/Consumer/Tracker.antt =====
-- `OffsetTracker` of src/utils/kafkaConsumer.py. A topic partition is a value of the broker
-- client's own type, a parameter `Tp` with its equality. Every method holds the lock from its first
-- line to its last, so it is one step.
use agentic_resident_crm.Prelude.{
  ℕ, suc, ◌+◌, List, [], ◌∷◌, ◌++◌, Option, none, some, if◌then◌else◌, ltb, Eq, nat_eq, get_or,
  contains, keep, length,
}
use agentic_resident_crm.Utils.Consumer.Sets.{
  add, discard, minus, lowest, highest, find, put, remove, keys,
}

pub record Tracker (Tp : Type 0) : Type 0 where
  pub dispatched : List (Tp × List ℕ)
  pub completed : List (Tp × List ℕ)

-- A completed set none of which is at or above the lowest offset that still runs.
abbrev pub safe_below : List ℕ → List ℕ → List ℕ
safe_below [] completed = completed
safe_below (x ∷ xs) completed = keep (λ o. ltb o (lowest x xs)) completed

-- `max(committable) + 1`, for a set that is not empty.
abbrev pub position : ℕ → List ℕ → ℕ
position o os = suc (highest o os)

module _ {Tp : Type 0} ⦃eq : Eq Tp⦄ where
  -- What the default dictionary answers for a partition.
  abbrev pub offsets : Tp → List (Tp × List ℕ) → List ℕ
  offsets tp sets = get_or (find tp sets) []

  abbrev pub set_dispatched : Tp → ℕ → Tracker Tp → Tracker Tp
  set_dispatched tp o t = record t {
    dispatched = put tp (add o (offsets tp t.dispatched)) t.dispatched;
  }

  unfoldable pub set_completed : Tp → ℕ → Tracker Tp → Tracker Tp
  set_completed tp o t =
      if contains (offsets tp t.dispatched) o
      then record t { completed = put tp (add o (offsets tp t.completed)) t.completed }
      else t

  -- `.get(tp)`, and `discard` where there is a set.
  abbrev pub discard_at : Tp → ℕ → Option (List ℕ) → List (Tp × List ℕ) → List (Tp × List ℕ)
  discard_at tp o none sets = sets
  discard_at tp o (some os) sets = put tp (discard o os) sets

  unfoldable pub set_abandoned : Tp → ℕ → Tracker Tp → Tracker Tp
  set_abandoned tp o t = record t {
    dispatched = discard_at tp o (find tp t.dispatched) t.dispatched;
    completed = discard_at tp o (find tp t.completed) t.completed;
  }

  abbrev pub still_running : Tp → Tracker Tp → List ℕ
  still_running tp t = minus (offsets tp t.dispatched) (offsets tp t.completed)

  abbrev pub committable : Tp → Tracker Tp → List ℕ
  committable tp t = safe_below (still_running tp t) (offsets tp t.completed)

  -- Nothing committable leaves the partition as it is.
  unfoldable pub retired : Tp → List ℕ → Tracker Tp → Tracker Tp
  retired tp [] t = t
  retired tp (o ∷ os) t = record t {
    dispatched = put tp (minus (offsets tp t.dispatched) (o ∷ os)) t.dispatched;
    completed = put tp (minus (offsets tp t.completed) (o ∷ os)) t.completed;
  }

  abbrev pub with_commit : Tp → List ℕ → List (Tp × ℕ) × Tracker Tp → List (Tp × ℕ) × Tracker Tp
  with_commit tp [] rest = rest
  with_commit tp (o ∷ os) (commits, last) = ((tp, position o os) ∷ commits, last)

  -- The loop over the partitions: what it commits, and the tracker it leaves.
  unfoldable pub take_from : List Tp → Tracker Tp → List (Tp × ℕ) × Tracker Tp
  take_from [] t = ([], t)
  take_from (tp ∷ tps) t =
      let os = committable tp t in with_commit tp os (take_from tps (retired tp os t))

  unfoldable pub take_committable : Tracker Tp → List (Tp × ℕ) × Tracker Tp
  take_committable t = take_from (keys t.completed) t

  unfoldable pub committable_for : List Tp → Tracker Tp → List (Tp × ℕ) × Tracker Tp
  committable_for wanted t = take_from (keep (contains wanted) (keys t.completed)) t

  unfoldable pub forget : List Tp → Tracker Tp → Tracker Tp
  forget [] t = t
  forget (tp ∷ tps) t =
      forget tps (record { dispatched = remove tp t.dispatched; completed = remove tp t.completed })

  abbrev pub tracked_partitions : Tracker Tp → List Tp
  tracked_partitions t = keys t.dispatched ++ keys t.completed

  abbrev pub running_from : List (Tp × List ℕ) → List (Tp × List ℕ) → ℕ
  running_from [] completed = 0
  running_from ((tp, os) ∷ rest) completed =
      length (minus os (offsets tp completed)) + running_from rest completed

  abbrev pub in_flight : Tracker Tp → ℕ
  in_flight t = running_from t.dispatched t.completed
