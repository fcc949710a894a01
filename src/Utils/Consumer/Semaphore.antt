-- ===== src/Utils/Consumer/Semaphore.antt =====
-- The worker slots in every run of the consumer (src/utils/kafkaConsumer.py).
use agentic_resident_crm.Prelude.{
  ℕ, zero, suc, ◌+◌, Bool, true, false, List, [], ◌∷◌, Option, none, some, Eq, ◌≡◌, refl, ap, ◌∙◌,
  arith, if◌then◌else◌,
}
use agentic_resident_crm.Utils.Consumer.Messages.{
  MessageAdapter, Effect, Forwarding, tracks, completes, abandons, publishes, forwards, skips,
  saves, releases, submits, forwarded,
}
use agentic_resident_crm.Utils.Consumer.State.{
  Message, Task, Consumer, due, advanced, idle, started, commit_ready_offsets,
  on_partitions_revoked, on_partitions_assigned,
}
use agentic_resident_crm.Utils.Consumer.Loop.{
  Move, takes, continues, works, drains, fetches, revokes, assigns, stops, perform, dispatched_next,
  carried_on, worked, in_hand, move, run,
}
use agentic_resident_crm.Utils.Consumer.Slots.{
  weight, weight_of, owed_in, owed_by, owed-process_and_commit, owed-handle_one_message,
  owed_by-advanced,
}

module _ {Tp Msg Body : Type 0} where
  -- The slots that are free or will be given back.
  abbrev pub all_slots : Consumer Tp Msg Body → ℕ
  all_slots c = c.slots + (owed_in c.handling + owed_by c.workers)

  all_slots-if :
      (b : Bool) (next c : Consumer Tp Msg Body)
      → all_slots next ≡ all_slots c
      → all_slots (if b then c else next) ≡ all_slots c
  all_slots-if true next c h = refl
  all_slots-if false next c h = h

  all_slots-idle :
      (task : Option (Task Tp Body)) (next c : Consumer Tp Msg Body)
      → c.handling ≡ task
      → (c.handling ≡ none → all_slots next ≡ all_slots c)
      → all_slots (idle task next c) ≡ all_slots c
  all_slots-idle none next c h later = later h
  all_slots-idle (some task) next c h later = refl

module _ {Tp Msg Body : Type 0} ⦃eq : Eq Tp⦄ (adapter : MessageAdapter Msg Body) where
  all_slots-perform :
      (outcome : Forwarding) (delivered : Bool) (e : Effect Body) (tp : Tp) (o : ℕ)
      (c : Consumer Tp Msg Body)
      → all_slots (perform adapter outcome delivered e tp o c) ≡ weight e + all_slots c
  unfolding perform
  all_slots-perform outcome delivered tracks tp o c = omega arith
  all_slots-perform outcome delivered completes tp o c = omega arith
  all_slots-perform outcome delivered abandons tp o c = omega arith
  all_slots-perform outcome delivered publishes tp o c = omega arith
  all_slots-perform outcome delivered forwards tp o c = omega arith
  all_slots-perform outcome delivered skips tp o c = omega arith
  all_slots-perform outcome delivered saves tp o c = omega arith
  all_slots-perform outcome delivered releases tp o c = omega arith
  all_slots-perform outcome delivered (submits body) tp o c =
      omega (arith, owed-process_and_commit Body (adapter.identity_of body) outcome delivered)

  all_slots-in_hand :
      (outcome : Forwarding) (delivered : Bool) (task : Option (Task Tp Body))
      (c : Consumer Tp Msg Body)
      → c.handling ≡ task
      → all_slots (in_hand adapter outcome delivered task c) ≡ all_slots c
  unfolding carried_on
  all_slots-in_hand outcome delivered none c h = refl
  all_slots-in_hand outcome delivered (some t) c h = by_left t.left (ap owed_in h)
    where
      by_left :
          (left : List (Effect Body))
          → owed_in c.handling ≡ owed_in (some (record t { left = left }))
          → all_slots (carried_on adapter outcome delivered t.tp t.offset left c) ≡ all_slots c
      by_left [] h = omega arith
      by_left (e ∷ left) h = omega (
        arith,
        all_slots-perform outcome delivered e t.tp t.offset
            (record c { handling = some (record t { left = left }) }),
      )

  all_slots-worked :
      (d : Option (Effect Body × (Tp × ℕ))) (n : ℕ) (c : Consumer Tp Msg Body)
      → due n c.workers ≡ d
      → all_slots (worked adapter d n c) ≡ all_slots c
  unfolding worked
  all_slots-worked none n c h = refl
  all_slots-worked (some (e, (tp, o))) n c h = omega (
    arith,
    ap weight_of h,
    owed_by-advanced n c.workers,
    all_slots-perform forwarded false e tp o (record c { workers = advanced n c.workers }),
  )

  all_slots-dispatched_next :
      (backlog : List (Message Tp Msg)) (slots : ℕ) (accepted delivered : Bool)
      (c : Consumer Tp Msg Body)
      → c.slots ≡ slots
      → c.handling ≡ none
      → all_slots (dispatched_next adapter backlog slots accepted delivered c) ≡ all_slots c
  unfolding dispatched_next
  all_slots-dispatched_next [] slots accepted delivered c h free = refl
  all_slots-dispatched_next (m ∷ rest) zero accepted delivered c h free = refl
  all_slots-dispatched_next (m ∷ rest) (suc slots) accepted delivered c h free =
      omega (arith, h, ap owed_in free, owed-handle_one_message adapter m.value accepted delivered)

  all_slots-move :
      (m : Move Tp Msg) (c : Consumer Tp Msg Body) → all_slots (move adapter m c) ≡ all_slots c
  unfolding move commit_ready_offsets on_partitions_revoked on_partitions_assigned
  all_slots-move (takes accepted delivered) c = all_slots-if c.draining _ c (
      all_slots-idle c.handling (dispatched_next adapter c.backlog c.slots accepted delivered c) c
        refl (all_slots-dispatched_next c.backlog c.slots accepted delivered c refl))
  all_slots-move (continues outcome delivered) c =
      all_slots-in_hand outcome delivered c.handling c refl
  all_slots-move (works n) c = all_slots-worked (due n c.workers) n c refl
  all_slots-move (drains ok) c = all_slots-idle c.handling _ c refl (λ h. refl)
  all_slots-move (fetches messages) c = all_slots-idle c.handling _ c refl (λ h. refl)
  all_slots-move (revokes revoked ok) c = all_slots-idle c.handling _ c refl (λ h. refl)
  all_slots-move (assigns assigned) c = all_slots-idle c.handling _ c refl (λ h. refl)
  all_slots-move stops c = refl

  all_slots-run :
      (moves : List (Move Tp Msg)) (c : Consumer Tp Msg Body)
      → all_slots (run adapter moves c) ≡ all_slots c
  unfolding run
  all_slots-run [] c = refl
  all_slots-run (m ∷ ms) c = all_slots-run ms (move adapter m c) ∙ all_slots-move m c

  -- In every state a run reaches, the free worker slots and those that the threads at work will give
  -- back add up to the number the process started with: no failure loses a slot or frees one twice.
  pub run-slots :
      (max_concurrent : ℕ) (moves : List (Move Tp Msg))
      → all_slots (run adapter moves (started max_concurrent)) ≡ max_concurrent
  unfolding started
  run-slots max_concurrent moves = all_slots-run moves (started max_concurrent) ∙ omega arith
