-- ===== src/Utils/Consumer/Dispatch.antt =====
-- No dead letter is discarded by its consumer (src/utils/message_adapters.py,
-- src/utils/kafkaConsumer.py).
use agentic_resident_crm.Prelude.{
  ◌+◌, ◌≤◌, Bool, true, false, String, [], ◌∷◌, Option, none, some, Text, length, ◌≡◌, refl, subst,
  Bool-cases, inl, inr, ap, ◌∙◌, if_off,
}
use mathlib.Core.Option.{some-injective}
use agentic_resident_crm.Storage.{Answer, answered}
use agentic_resident_crm.Dlt.Parked.Entries.{all_id_chars, is_event_id}
use agentic_resident_crm.Dlt.Identity.{derive_case_id, case_id_of, suffix_of, group_of, if_valid}
use agentic_resident_crm.Dlt.Identity.Digits.{ℤ, signed}
use agentic_resident_crm.Dlt.Identity.Valid.{derive_case_id-IsDerived}
use agentic_resident_crm.Utils.Consumer.Messages.{
  tracks, submits, handle_one_message, handle_parsed, skipped_or,
}
use agentic_resident_crm.Utils.Consumer.Adapters.{
  DltBody, accepted, Reading, DltRecord, is_republished, validated, carried, parse_read,
  with_case_id, built, case_id_for, parse, identity_of, dlt_adapter,
}

module _ (digest : Text → Text) (ten : (t : Text) → length (digest t) ≡ 10)
    (hex : (t : Text) → all_id_chars (digest t) ≡ true) where
  -- The message that a republished record carries is accepted; the headers, the key and the payload
  -- of another are read, and the message built of them is accepted.
  abbrev pub IsReadable : Bool → DltRecord → Type 0
  IsReadable true r = (body : DltBody) × (validated r.payload ≡ accepted body)
  IsReadable false r = (d : Reading) × (r.reading ≡ answered d) × (d.invalid ≡ none)

  -- The body is the message that a republished record carries; that of another has the refId that
  -- was read and a valid case id.
  abbrev pub IsBodyOf : Bool → DltRecord → DltBody → Type 0
  IsBodyOf true r body = validated r.payload ≡ accepted body
  IsBodyOf false r body =
      (d : Reading) × (case_id : Text) × (r.reading ≡ answered d)
      × (body ≡ record { case_id = some case_id; ref_id = d.ref_id })
      × (is_event_id case_id ≡ true)

  derived-IsEventId :
      (topic : Option Text) (p o : Option ℤ) (group : Option Text) (case_id : Text)
      → derive_case_id digest topic p o group ≡ some case_id
      → is_event_id case_id ≡ true
  unfolding derive_case_id
  derived-IsEventId none p o group case_id h = cc
  derived-IsEventId (some topic) none o group case_id h = cc
  derived-IsEventId (some topic) (some p) none group case_id h = cc
  derived-IsEventId (some topic) (some p) (some o) group case_id h =
      by_test (case_id_of digest topic (suffix_of digest p o (group_of group))) h
    where
      by_test : (t : Text) → if_valid digest t ≡ some case_id → is_event_id case_id ≡ true
      by_test t e = elim (Bool-cases (is_event_id t)) [
        | inl ok ↦ subst (λ u. is_event_id u ≡ true) (some-injective _ _ (rw ok at e)) ok
        | inr not_ok ↦ cc (rw not_ok at e)
      ]

  case_id_for_derived :
      (r : DltRecord) (d : Reading) (original : Option Text) (own : Text)
      → derive_case_id digest d.original_topic d.original_partition d.original_offset
          d.consumer_group
        ≡ original
      → derive_case_id digest (some r.topic) (some r.partition) (some r.offset) none ≡ some own
      → is_event_id own ≡ true
      → (case_id : Text) × (case_id_for digest r d ≡ some case_id) × (is_event_id case_id ≡ true)
  case_id_for_derived r d none own e f valid = (own, rw e f, valid)
  case_id_for_derived r d (some t) own e f valid = (t, rw e refl, derived-IsEventId _ _ _ _ t e)

  parse_lem :
      (r : DltRecord) (b : Bool)
      → is_republished r.payload ≡ b
      → length (signed r.partition) + length (signed r.offset) ≤ 99
      → IsReadable b r
      → (body : DltBody) × (parse digest r
          ≡ answered (record { body = some body; raw_text = r.raw_text; error = none }))
        × IsBodyOf b r body
  unfolding parse
  parse_lem r true again small (body, e) = (body, rw again (rw e refl), e)
  parse_lem r false first small (d, e, valid) =
      let (own, f, own_valid) =
        derive_case_id-IsDerived digest ten hex r.topic r.partition r.offset none small in
      let (case_id, g, id_valid) = case_id_for_derived r d _ own refl f own_valid in
      (
        record { case_id = some case_id; ref_id = d.ref_id },
        if_off (is_republished r.payload) (answered (carried (validated r.payload) r.raw_text))
              (parse_read digest r r.reading) first
            ∙ ap (parse_read digest r) e
            ∙ ap (λ c. answered (with_case_id digest c r.raw_text d)) g
            ∙ ap (λ i. answered (built digest i r.raw_text d case_id)) valid,
        (d, case_id, e, refl, id_valid),
      )

  -- Where the digest gives ten characters of an id and the case store holds no terminal case, a
  -- record of the dead-letter topic whose own partition and offset have at most 99 characters, and
  -- that can be read, is handed to a worker, if the pool accepts it: one that was republished with
  -- the message that it carries, any other with a valid case id, whatever coordinates its headers
  -- give. One that was republished can be read where the schema accepts what it carries, any other
  -- where reading it does not raise and the schema accepts the message that is built.
  pub dlt_adapter-IsDispatched :
      (exists : Option Text → Answer Bool) (named : Text → String) (r : DltRecord)
      (delivered : Bool)
      → length (signed r.partition) + length (signed r.offset) ≤ 99
      → IsReadable (is_republished r.payload) r
      → ((identity : Option Text) → exists identity ≡ answered false)
      → (body : DltBody) × (handle_one_message (dlt_adapter digest exists named) r true delivered
          ≡ tracks ∷ submits body ∷ [])
        × IsBodyOf (is_republished r.payload) r body
  unfolding handle_one_message handle_parsed skipped_or
  dlt_adapter-IsDispatched exists named r delivered small readable new =
      let (body, e, of) = parse_lem r (is_republished r.payload) refl small readable in
      (body, rw e (rw (new (identity_of digest body)) refl), of)
