-- ===== src/Utils/Consumer/Slots.antt =====
-- `_queue_semaphore` of src/utils/kafkaConsumer.py: a slot that a message takes is given back once.
use agentic_resident_crm.Prelude.{
  ℕ, zero, suc, ◌+◌, Bool, true, false, String, List, [], ◌∷◌, ◌++◌, Option, none, some, is_some,
  get_or, ◌≡◌, refl, arith, if◌then◌else◌,
}
use agentic_resident_crm.Storage.{Answer, answered, raised}
use agentic_resident_crm.Utils.Consumer.Messages.{
  ParseResult, MessageAdapter, Effect, Forwarding, tracks, completes, abandons, publishes, forwards,
  skips, saves, releases, submits, forwarded, timed_out, failed, is_set, dlq_and_abandon,
  dlq_and_complete, enqueued, skipped_or, handle_parsed, process_and_commit, handle_one_message,
  first_of, rest_of,
}
use agentic_resident_crm.Utils.Consumer.State.{Task, at_task, due, advanced}

module _ {Body : Type 0} where
  -- A submission passes the slot on to the worker.
  abbrev pub weight : Effect Body → ℕ
  weight releases = 1
  weight (submits body) = 1
  weight tracks = 0
  weight completes = 0
  weight abandons = 0
  weight publishes = 0
  weight forwards = 0
  weight skips = 0
  weight saves = 0

  -- The slots that the effects left to a thread give back.
  abbrev pub owed : List (Effect Body) → ℕ
  owed [] = 0
  owed (e ∷ left) = weight e + owed left

module _ (Body : Type 0) where
  pub owed-process_and_commit :
      (event_id : Option String) (outcome : Forwarding) (delivered : Bool)
      → owed {Body = Body} (process_and_commit event_id outcome delivered) ≡ 1
  unfolding process_and_commit
  owed-process_and_commit event_id forwarded delivered = refl
  owed-process_and_commit event_id timed_out delivered = by_id (is_set event_id) delivered
    where
      by_id :
          (set delivered : Bool)
          → owed {Body = Body}
              ((if set then saves ∷ [] else []) ++ dlq_and_complete delivered ++ releases ∷ [])
            ≡ 1
      by_id true true = refl
      by_id true false = refl
      by_id false true = refl
      by_id false false = refl
  owed-process_and_commit event_id failed true = refl
  owed-process_and_commit event_id failed false = refl

  owed-dlq_and_abandon :
      (delivered : Bool) → owed {Body = Body} (dlq_and_abandon delivered ++ releases ∷ []) ≡ 1
  owed-dlq_and_abandon true = refl
  owed-dlq_and_abandon false = refl

module _ {Body : Type 0} where
  owed-skipped_or :
      (reason : Answer (Option String)) (body : Body) (accepted delivered : Bool)
      → owed (skipped_or reason body accepted delivered) ≡ 1
  unfolding skipped_or
  owed-skipped_or raised body accepted delivered = owed-dlq_and_abandon Body delivered
  owed-skipped_or (answered reason) body accepted delivered = by_reason (is_set reason) accepted
    where
      by_reason :
          (skip accepted : Bool)
          → owed
              (if skip then skips ∷ completes ∷ releases ∷ [] else enqueued body accepted delivered)
            ≡ 1
      by_reason true accepted = refl
      by_reason false true = refl
      by_reason false false = owed-dlq_and_abandon Body delivered

module _ {Msg Body : Type 0} (adapter : MessageAdapter Msg Body) where
  owed-handle_parsed :
      (parsed : Answer (ParseResult Body)) (accepted delivered : Bool)
      → owed (handle_parsed adapter parsed accepted delivered) ≡ 1
  unfolding handle_parsed
  owed-handle_parsed raised accepted delivered = owed-dlq_and_abandon Body delivered
  owed-handle_parsed (answered p) accepted delivered = by_error (is_some p.error) delivered
    where
      body_of : Body
      body_of = get_or p.body adapter.empty

      by_error :
          (poison delivered : Bool)
          → owed (
              if poison
              then dlq_and_complete delivered ++ releases ∷ []
              else skipped_or (adapter.should_skip body_of) body_of accepted delivered)
            ≡ 1
      by_error true true = refl
      by_error true false = refl
      by_error false delivered =
          owed-skipped_or (adapter.should_skip body_of) body_of accepted delivered

  pub owed-handle_one_message :
      (msg : Msg) (accepted delivered : Bool)
      → owed (handle_one_message adapter msg accepted delivered) ≡ 1
  unfolding handle_one_message
  owed-handle_one_message msg accepted delivered =
      omega (arith, owed-handle_parsed (adapter.parse msg) accepted delivered)

module _ {Tp Body : Type 0} where
  abbrev pub owed_in : Option (Task Tp Body) → ℕ
  owed_in none = 0
  owed_in (some task) = owed task.left

  abbrev pub owed_by : List (Task Tp Body) → ℕ
  owed_by [] = 0
  owed_by (w ∷ ws) = owed w.left + owed_by ws

  abbrev pub weight_of : Option (Effect Body × (Tp × ℕ)) → ℕ
  weight_of none = 0
  weight_of (some (e, at)) = weight e

  pub owed_by-advanced :
      (n : ℕ) (ws : List (Task Tp Body))
      → weight_of (due n ws) + owed_by (advanced n ws) ≡ owed_by ws
  owed_by-advanced n [] = refl
  owed_by-advanced zero (w ∷ ws) = by_left w.left
    where
      by_left :
          (left : List (Effect Body))
          → weight_of (at_task w (first_of left)) + (owed (rest_of left) + owed_by ws)
            ≡ owed left + owed_by ws
      by_left [] = omega arith
      by_left (e ∷ left) = omega arith
  owed_by-advanced (suc n) (w ∷ ws) = omega (arith, owed_by-advanced n ws)
