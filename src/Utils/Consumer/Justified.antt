-- ===== src/Utils/Consumer/Justified.antt =====
-- A message is retired only once it is settled: `_handle_one_message`, `_process_and_commit` and
-- `_dlq_and_abandon` of src/utils/kafkaConsumer.py.
use agentic_resident_crm.Prelude.{
  Bool, true, false, ◌&&◌, ◌||◌, String, List, [], ◌∷◌, ◌++◌, Option, is_some, get_or, nat_eq, ◌≡◌,
  refl, arith, inl, inr, Bool-cases,
}
use agentic_resident_crm.Storage.{Answer, answered, raised}
use agentic_resident_crm.Utils.Consumer.Messages.{
  ParseResult, MessageAdapter, Effect, Forwarding, tracks, completes, abandons, publishes, forwards,
  skips, saves, releases, submits, forwarded, timed_out, failed, is_set, dlq_and_abandon,
  dlq_and_complete, process_and_commit, enqueued, skipped_or, handle_parsed, handle_one_message,
}

module _ {Body : Type 0} where
  -- The effects that settle a message, and those that need it to be settled: the completions and
  -- abandonments that are left come when it is.
  abbrev pub settles : Effect Body → Bool
  settles publishes = true
  settles forwards = true
  settles skips = true
  settles tracks = false
  settles completes = false
  settles abandons = false
  settles saves = false
  settles releases = false
  settles (submits body) = false

  abbrev pub allowed : Effect Body → Bool → Bool
  allowed completes s = s
  allowed abandons s = s
  allowed publishes s = true
  allowed forwards s = true
  allowed skips s = true
  allowed tracks s = true
  allowed saves s = true
  allowed releases s = true
  allowed (submits body) s = true

  abbrev pub justified : Bool → List (Effect Body) → Bool
  justified s [] = true
  justified s (e ∷ left) = allowed e s && justified (settles e || s) left

  pub allowed_now :
      (e : Effect Body) (left : List (Effect Body)) (s : Bool)
      → justified s (e ∷ left) ≡ true
      → allowed e s ≡ true
  allowed_now e left s h = ground arith

  pub justified-grow :
      (left : List (Effect Body)) (s : Bool) → justified s left ≡ true → justified true left ≡ true
  justified-grow [] s h = refl
  justified-grow (publishes ∷ left) s h = h
  justified-grow (forwards ∷ left) s h = h
  justified-grow (skips ∷ left) s h = h
  justified-grow (tracks ∷ left) s h = justified-grow left s h
  justified-grow (completes ∷ left) s h = ground (arith, justified-grow left s)
  justified-grow (abandons ∷ left) s h = ground (arith, justified-grow left s)
  justified-grow (saves ∷ left) s h = justified-grow left s h
  justified-grow (releases ∷ left) s h = justified-grow left s h
  justified-grow (submits body ∷ left) s h = justified-grow left s h

module _ (Body : Type 0) where
  pub justified-process_and_commit :
      (event_id : Option String) (outcome : Forwarding) (delivered s : Bool)
      → justified {Body = Body} s (process_and_commit event_id outcome delivered) ≡ true
  unfolding process_and_commit
  justified-process_and_commit event_id forwarded delivered s = refl
  justified-process_and_commit event_id timed_out true s = elim (Bool-cases (is_set event_id)) [
    | inl h ↦ rw h refl
    | inr h ↦ rw h refl
  ]
  justified-process_and_commit event_id timed_out false s = elim (Bool-cases (is_set event_id)) [
    | inl h ↦ rw h refl
    | inr h ↦ rw h refl
  ]
  justified-process_and_commit event_id failed true s = refl
  justified-process_and_commit event_id failed false s = refl

  justified-dlq_and_abandon :
      (delivered s : Bool)
      → justified {Body = Body} s (dlq_and_abandon delivered ++ releases ∷ []) ≡ true
  justified-dlq_and_abandon true s = refl
  justified-dlq_and_abandon false s = refl

module _ {Body : Type 0} where
  justified-skipped_or :
      (reason : Answer (Option String)) (body : Body) (accepted delivered s : Bool)
      → justified s (skipped_or reason body accepted delivered) ≡ true
  unfolding skipped_or
  justified-skipped_or raised body accepted delivered s = justified-dlq_and_abandon Body delivered s
  justified-skipped_or (answered reason) body accepted delivered s =
      elim (Bool-cases (is_set reason)) [ inl h ↦ rw h refl | inr h ↦ rw h (by_pool accepted) ]
    where
      by_pool : (accepted : Bool) → justified s (enqueued body accepted delivered) ≡ true
      by_pool true = refl
      by_pool false = justified-dlq_and_abandon Body delivered s

module _ {Msg Body : Type 0} (adapter : MessageAdapter Msg Body) where
  justified-handle_parsed :
      (parsed : Answer (ParseResult Body)) (accepted delivered s : Bool)
      → justified s (handle_parsed adapter parsed accepted delivered) ≡ true
  unfolding handle_parsed
  justified-handle_parsed raised accepted delivered s = justified-dlq_and_abandon Body delivered s
  justified-handle_parsed (answered p) accepted delivered s = elim (Bool-cases (is_some p.error)) [
    | inl h ↦ rw h (poison delivered)
    | inr h ↦ rw h (
        justified-skipped_or (adapter.should_skip (get_or p.body adapter.empty))
          (get_or p.body adapter.empty) accepted delivered s)
  ]
    where
      poison :
          (delivered : Bool)
          → justified {Body = Body} s (dlq_and_complete delivered ++ releases ∷ []) ≡ true
      poison true = refl
      poison false = refl

  pub justified-handle_one_message :
      (msg : Msg) (accepted delivered s : Bool)
      → justified s (handle_one_message adapter msg accepted delivered) ≡ true
  unfolding handle_one_message
  justified-handle_one_message msg accepted delivered s =
      justified-handle_parsed (adapter.parse msg) accepted delivered s
