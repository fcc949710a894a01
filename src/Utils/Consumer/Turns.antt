-- ===== src/Utils/Consumer/Turns.antt =====
-- The handling of a message comes to its end (`_handle_one_message` of src/utils/kafkaConsumer.py).
use agentic_resident_crm.Prelude.{
  ℕ, zero, suc, ◌≤◌, Bool, true, false, List, [], ◌∷◌, ◌++◌, Option, none, some, if◌then◌else◌,
  length, replicate, Eq, ◌≡◌, refl, ap, sym, subst, ◌∙◌, arith, String, is_some, get_or,
}
use agentic_resident_crm.Storage.{Answer, answered, raised}
use agentic_resident_crm.Utils.Consumer.Messages.{
  MessageAdapter, ParseResult, Effect, Forwarding, tracks, completes, abandons, publishes, forwards,
  skips, saves, releases, submits, is_set, dlq_and_abandon, dlq_and_complete, enqueued, skipped_or,
  handle_parsed, handle_one_message,
}
use agentic_resident_crm.Utils.Consumer.State.{Message, Consumer}
use agentic_resident_crm.Utils.Consumer.Loop.{continues, perform, carried_on, in_hand, move, run}

module _ (Body : Type 0) where
  length-dlq_and_abandon :
      (delivered : Bool) → length (dlq_and_abandon {Body = Body} delivered ++ releases ∷ []) ≤ 3
  length-dlq_and_abandon true = omega arith
  length-dlq_and_abandon false = omega arith

module _ {Body : Type 0} where
  length-skipped_or :
      (reason : Answer (Option String)) (body : Body) (accepted delivered : Bool)
      → length (skipped_or reason body accepted delivered) ≤ 3
  unfolding skipped_or
  length-skipped_or raised body accepted delivered = length-dlq_and_abandon Body delivered
  length-skipped_or (answered reason) body accepted delivered = by_reason (is_set reason) accepted
    where
      by_reason :
          (skip accepted : Bool)
          → length
              (if skip then skips ∷ completes ∷ releases ∷ [] else enqueued body accepted delivered)
            ≤ 3
      by_reason true accepted = omega arith
      by_reason false true = omega arith
      by_reason false false = length-dlq_and_abandon Body delivered

module _ {Msg Body : Type 0} (adapter : MessageAdapter Msg Body) where
  length-handle_parsed :
      (parsed : Answer (ParseResult Body)) (accepted delivered : Bool)
      → length (handle_parsed adapter parsed accepted delivered) ≤ 3
  unfolding handle_parsed
  length-handle_parsed raised accepted delivered = length-dlq_and_abandon Body delivered
  length-handle_parsed (answered p) accepted delivered = by_error (is_some p.error) delivered
    where
      by_error :
          (poison delivered : Bool)
          → length (
              if poison
              then dlq_and_complete delivered ++ releases ∷ []
              else skipped_or
                  (adapter.should_skip (get_or p.body adapter.empty))
                  (get_or p.body adapter.empty)
                  accepted
                  delivered)
            ≤ 3
      by_error true true = omega arith
      by_error true false = omega arith
      by_error false delivered =
          length-skipped_or (adapter.should_skip (get_or p.body adapter.empty))
            (get_or p.body adapter.empty) accepted delivered

  pub length-handle_one_message :
      (msg : Msg) (accepted delivered : Bool)
      → length (handle_one_message adapter msg accepted delivered) ≤ 4
  unfolding handle_one_message
  length-handle_one_message msg accepted delivered =
      omega (arith, length-handle_parsed (adapter.parse msg) accepted delivered)

module _ {Tp Msg Body : Type 0} where
  -- The thread is between two messages, with this backlog and this flag.
  pub record IsBetween (backlog : List (Message Tp Msg)) (draining : Bool)
      (c : Consumer Tp Msg Body) : Type 0 where
    pub free : c.handling ≡ none
    pub same_backlog : c.backlog ≡ backlog
    pub same_draining : c.draining ≡ draining

module _ {Tp Msg Body : Type 0} ⦃eq : Eq Tp⦄ (adapter : MessageAdapter Msg Body) where
  perform-backlog :
      (outcome : Forwarding) (sent : Bool) (e : Effect Body) (tp : Tp) (o : ℕ)
      (c : Consumer Tp Msg Body)
      → ((perform adapter outcome sent e tp o c).handling ≡ c.handling)
        × ((perform adapter outcome sent e tp o c).backlog ≡ c.backlog)
        × ((perform adapter outcome sent e tp o c).draining ≡ c.draining)
  unfolding perform
  perform-backlog outcome sent tracks tp o c = (refl, refl, refl)
  perform-backlog outcome sent completes tp o c = (refl, refl, refl)
  perform-backlog outcome sent abandons tp o c = (refl, refl, refl)
  perform-backlog outcome sent publishes tp o c = (refl, refl, refl)
  perform-backlog outcome sent forwards tp o c = (refl, refl, refl)
  perform-backlog outcome sent skips tp o c = (refl, refl, refl)
  perform-backlog outcome sent saves tp o c = (refl, refl, refl)
  perform-backlog outcome sent releases tp o c = (refl, refl, refl)
  perform-backlog outcome sent (submits body) tp o c = (refl, refl, refl)

  -- Moves on a thread that has nothing in hand change nothing.
  pub continue_idle :
      (outcome : Forwarding) (sent : Bool) (n : ℕ) (c : Consumer Tp Msg Body)
      → c.handling ≡ none
      → run adapter (replicate n (continues outcome sent)) c ≡ c
  unfolding run move
  continue_idle outcome sent zero c h = refl
  continue_idle outcome sent (suc n) c h =
      ap (run adapter (replicate n (continues outcome sent)))
        (ap (λ t. in_hand adapter outcome sent t c) h)
      ∙ continue_idle outcome sent n c h

  pub continue_done :
      (outcome : Forwarding) (sent : Bool) (n : ℕ) (tp : Tp) (o : ℕ) (left : List (Effect Body))
      (c : Consumer Tp Msg Body)
      → c.handling ≡ some (record { tp = tp; offset = o; left = left })
      → length left ≤ n
      → IsBetween c.backlog c.draining (run adapter (replicate (suc n) (continues outcome sent)) c)
  unfolding run move carried_on
  continue_done outcome sent n tp o [] c h short =
      subst (IsBetween c.backlog c.draining)
        (sym (
          ap (run adapter (replicate n (continues outcome sent)))
            (ap (λ t. in_hand adapter outcome sent t c) h)
          ∙ continue_idle outcome sent n (record c { handling = none }) refl))
        (record { free = refl; same_backlog = refl; same_draining = refl })
  continue_done outcome sent zero tp o (e ∷ left) c h short = absurd (omega arith)
  continue_done outcome sent (suc n) tp o (e ∷ left) c h short =
      let begun = record c { handling = some (record { tp = tp; offset = o; left = left }) } in
      let next = perform adapter outcome sent e tp o begun in
      let kept = perform-backlog outcome sent e tp o begun in
      let rest = continue_done outcome sent n tp o left next kept.0 (omega arith) in
      subst (IsBetween c.backlog c.draining)
        (sym (
          ap (run adapter (replicate (suc n) (continues outcome sent)))
            (ap (λ t. in_hand adapter outcome sent t c) h)))
        (record {
          free = rest.free;
          same_backlog = rest.same_backlog ∙ kept.1;
          same_draining = rest.same_draining ∙ kept.2;
        })
