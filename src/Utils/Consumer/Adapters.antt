-- ===== src/Utils/Consumer/Adapters.antt =====
-- The rules of each consumer role, src/utils/message_adapters.py: which messages are poison, which
-- are skipped and what identifies one. The decoding of values and headers and the validation of the
-- schemas are not read here: a record comes with what they answer, an exception included.
use agentic_resident_crm.Prelude.{
  Bool, true, false, ◌&&◌, get_or, List, String, [], ◌∷◌, Option, none, some, if◌then◌else◌, ◌==◌,
  string_eq, not, or_else, contains, Text,
}
use agentic_resident_crm.Storage.{Answer, answered, raised}
use agentic_resident_crm.Dlt.Identity.{derive_case_id, storage_key}
use agentic_resident_crm.Dlt.Identity.Digits.{ℤ}
use agentic_resident_crm.Utils.Consumer.Messages.{ParseResult, MessageAdapter}

-- `STATUS_ON_HOLD` and `STATUS_REJECTED` of src/models/audit_contract.py.
abbrev pub status_on_hold : String
status_on_hold = "ON_HOLD"

abbrev pub status_rejected : String
status_rejected = "REJECTED"

abbrev pub is_status : String → Option String → Bool
is_status wanted none = false
is_status wanted (some s) = s == wanted

-- The reason of a terminal document that the store answers to have, or not.
abbrev pub skipped_if : String → Answer Bool → Answer (Option String)
skipped_if reason raised = raised
skipped_if reason (answered true) = answered (some reason)
skipped_if reason (answered false) = answered none

-- What a packet event says that the consumer reads.
pub record PacketBody : Type 0 where
  pub event_id : Option String
  pub packet_status : Option String

-- `RejectionAdapter.should_skip`; `exists` is what the casebook store answers for an identity.
unfoldable pub rejection_should_skip :
    (Option String → Answer Bool) → PacketBody → Answer (Option String)
rejection_should_skip exists body =
    if is_status status_on_hold body.packet_status
    then answered (some "dead-lettered packet (ON_HOLD)")
    else if not (is_status status_rejected body.packet_status)
    then answered (some "non-rejected packet")
    else skipped_if "terminal casebook already exists" (exists body.event_id)

pub record DltBody : Type 0 where
  pub case_id : Option Text
  pub ref_id : Option Text

-- What the schema DltMessage says of a message: the body it makes, or its complaint.
pub data Validation : Type 0 where
  accepted : DltBody → Validation
  refused : String → Validation

-- The JSON value of a record: whether it is a dictionary, with which keys, and what the schema says
-- of it as a message.
pub record Payload : Type 0 where
  pub is_dictionary : Bool
  pub keys : List String
  pub message : Validation

-- What the headers, the key and the payload of a record are read as: the coordinates of the
-- original, the refId, and the complaint of the schema about the message that is built, if any.
pub record Reading : Type 0 where
  pub original_topic : Option Text
  pub original_partition : Option ℤ
  pub original_offset : Option ℤ
  pub consumer_group : Option Text
  pub ref_id : Option Text
  pub invalid : Option String

-- A record of the dead-letter topic with its own coordinates; what reads its headers, its key and its
-- payload may raise.
pub record DltRecord : Type 0 where
  pub topic : Text
  pub partition : ℤ
  pub offset : ℤ
  pub raw_text : Option String
  pub payload : Option Payload
  pub reading : Answer Reading

-- `isinstance(payload, dict) and "case_id" in payload and "headers" in payload`
abbrev pub is_republished : Option Payload → Bool
is_republished none = false
is_republished (some p) = p.is_dictionary && contains p.keys "case_id" && contains p.keys "headers"

-- What the schema says of a payload.
abbrev pub validated : Option Payload → Validation
validated none = refused "no payload"
validated (some p) = p.message

abbrev pub poison : Option String → String → ParseResult DltBody
poison raw_text error = record {
  body = none;
  raw_text = some (get_or raw_text "");
  error = some error;
}

-- A message that the fetch stage put on the analysis queue carries its id and headers in its body.
abbrev pub carried : Validation → Option String → ParseResult DltBody
carried (refused error) raw_text = poison raw_text error
carried (accepted body) raw_text = record { body = some body; raw_text = raw_text; error = none }

module _ (digest : Text → Text) where
  abbrev pub case_id_for : DltRecord → Reading → Option Text
  case_id_for r d =
      or_else
        (derive_case_id digest d.original_topic d.original_partition d.original_offset
          d.consumer_group)
        (derive_case_id digest (some r.topic) (some r.partition) (some r.offset) none)

  abbrev pub built : Option String → Option String → Reading → Text → ParseResult DltBody
  built none raw_text d case_id = record {
    body = some (record { case_id = some case_id; ref_id = d.ref_id });
    raw_text = raw_text;
    error = none;
  }
  built (some error) raw_text d case_id = poison raw_text error

  abbrev pub with_case_id : Option Text → Option String → Reading → ParseResult DltBody
  with_case_id none raw_text d = poison raw_text "Could not derive a case id from the record"
  with_case_id (some case_id) raw_text d = built d.invalid raw_text d case_id

  abbrev pub parse_read : DltRecord → Answer Reading → Answer (ParseResult DltBody)
  parse_read r raised = raised
  parse_read r (answered d) = answered (with_case_id (case_id_for r d) r.raw_text d)

  -- `DltAdapter.parse`
  unfoldable pub parse : DltRecord → Answer (ParseResult DltBody)
  parse r =
      if is_republished r.payload
      then answered (carried (validated r.payload) r.raw_text)
      else parse_read r r.reading

  -- `DltAdapter.identity_of`
  unfoldable pub identity_of : DltBody → Option Text
  identity_of body = by_case (body.case_id) body.ref_id
    where
      by_case : Option Text → Option Text → Option Text
      by_case none ref_id = ref_id
      by_case (some []) ref_id = ref_id
      by_case (some (c ∷ t)) ref_id = some (storage_key digest ref_id (c ∷ t))

  -- `exists` is what the case store answers for an identity, and `named` writes it as a name.
  abbrev pub dlt_adapter :
      (Option Text → Answer Bool) → (Text → String) → MessageAdapter DltRecord DltBody
  dlt_adapter exists named = record {
    parse = parse;
    should_skip = λ body. skipped_if "terminal DLT case already exists" (exists (identity_of body));
    identity_of = λ body. name_of (identity_of body);
    empty = record { case_id = none; ref_id = none };
  }
    where
      name_of : Option Text → Option String
      name_of none = none
      name_of (some t) = some (named t)

pub data Role : Type 0 where
  dlt rejection : Role

-- `for_role`: an unknown role has the rules of the rejection lane.
abbrev pub for_role : String → Role
for_role role = if contains ("dlt" ∷ "dlt_analysis" ∷ []) role then dlt else rejection
