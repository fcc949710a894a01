-- ===== src/Utils/Consumer/Messages.antt =====
-- What src/utils/kafkaConsumer.py does with one message, as the list of its effects in order:
-- `_handle_one_message` on the poll loop's thread and `_process_and_commit` on a worker's. The
-- answers of the storage, the pool, the dead-letter queue and the internal endpoint are arguments.
use agentic_resident_crm.Prelude.{
  Bool, true, false, not, String, List, [], ◌∷◌, ◌++◌, Option, none, some, if◌then◌else◌, ◌==◌,
  string_eq, is_some, get_or,
}
use agentic_resident_crm.Storage.{Answer, answered, raised}

-- `ParseResult` of src/utils/message_adapters.py.
pub record ParseResult (Body : Type 0) : Type 0 where
  pub body : Option Body
  pub raw_text : Option String
  pub error : Option String

-- `MessageAdapter`; `empty` is the dictionary that stands for a missing body.
pub record MessageAdapter (Msg : Type 0) (Body : Type 0) : Type 0 where
  pub parse : Msg → Answer (ParseResult Body)
  pub should_skip : Body → Answer (Option String)
  pub identity_of : Body → Option String
  pub empty : Body

-- `publishes` is a delivered publication to the dead-letter queue, `forwards` a forward that was
-- answered; `saves` is the attempt to write a terminal casebook.
pub data Effect (Body : Type 0) : Type 0 where
  tracks completes abandons publishes forwards skips saves releases : Effect Body
  submits : Body → Effect Body

-- How forwarding to the internal endpoint ends.
pub data Forwarding : Type 0 where
  forwarded timed_out failed : Forwarding

-- The truth of an optional text.
abbrev pub is_set : Option String → Bool
is_set none = false
is_set (some s) = not (s == "")

module _ {Body : Type 0} where
  abbrev pub first_of : List (Effect Body) → Option (Effect Body)
  first_of [] = none
  first_of (e ∷ left) = some e

  abbrev pub rest_of : List (Effect Body) → List (Effect Body)
  rest_of [] = []
  rest_of (e ∷ left) = left

  -- `publish_to_dlq` raises where it is not delivered, which leaves the offset dispatched.
  abbrev pub dlq_and_abandon : Bool → List (Effect Body)
  dlq_and_abandon true = publishes ∷ abandons ∷ []
  dlq_and_abandon false = []

  abbrev pub dlq_and_complete : Bool → List (Effect Body)
  dlq_and_complete true = publishes ∷ completes ∷ []
  dlq_and_complete false = []

  abbrev pub saved : Option String → List (Effect Body)
  saved event_id = if is_set event_id then saves ∷ [] else []

  unfoldable pub process_and_commit : Option String → Forwarding → Bool → List (Effect Body)
  process_and_commit event_id forwarded delivered = forwards ∷ completes ∷ releases ∷ []
  process_and_commit event_id timed_out delivered =
      saved event_id ++ dlq_and_complete delivered ++ releases ∷ []
  process_and_commit event_id failed delivered = dlq_and_abandon delivered ++ releases ∷ []

  abbrev pub enqueued : Body → Bool → Bool → List (Effect Body)
  enqueued body true delivered = submits body ∷ []
  enqueued body false delivered = dlq_and_abandon delivered ++ releases ∷ []

  unfoldable pub skipped_or : Answer (Option String) → Body → Bool → Bool → List (Effect Body)
  skipped_or raised body accepted delivered = dlq_and_abandon delivered ++ releases ∷ []
  skipped_or (answered reason) body accepted delivered =
      if is_set reason then skips ∷ completes ∷ releases ∷ [] else enqueued body accepted delivered

module _ {Msg Body : Type 0} (adapter : MessageAdapter Msg Body) where
  unfoldable pub handle_parsed : Answer (ParseResult Body) → Bool → Bool → List (Effect Body)
  handle_parsed raised accepted delivered = dlq_and_abandon delivered ++ releases ∷ []
  handle_parsed (answered parsed) accepted delivered =
      let body = get_or parsed.body adapter.empty in
      if is_some parsed.error
      then dlq_and_complete delivered ++ releases ∷ []
      else skipped_or (adapter.should_skip body) body accepted delivered

  unfoldable pub handle_one_message : Msg → Bool → Bool → List (Effect Body)
  handle_one_message msg accepted delivered =
      tracks ∷ handle_parsed (adapter.parse msg) accepted delivered
