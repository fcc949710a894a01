-- ===== src/Utils/Consumer/Ends.antt =====
-- The dispatch loop comes to its end (`_dispatch_backlog` of src/utils/kafkaConsumer.py).
use agentic_resident_crm.Prelude.{
  ℕ, zero, suc, ◌≤◌, true, false, List, [], ◌∷◌, ◌++◌, none, some, length, replicate, Eq, ◌≡◌, refl,
  ap, sym, subst, ◌∙◌, arith, ◌⊎◌, inl, inr, Bool-cases, if_on, if_off,
}
use agentic_resident_crm.Utils.Consumer.Messages.{MessageAdapter, handle_one_message}
use agentic_resident_crm.Utils.Consumer.State.{Message, Consumer, idle}
use agentic_resident_crm.Utils.Consumer.Loop.{
  Move, takes, continues, handled, dispatched_next, move, run,
}
use agentic_resident_crm.Utils.Consumer.Cycle.{Turn, handling_moves, turn_moves, dispatch_backlog}
use agentic_resident_crm.Utils.Consumer.Turns.{
  length-handle_one_message, IsBetween, continue_idle, continue_done,
}

module _ {Tp Msg Body : Type 0} ⦃eq : Eq Tp⦄ (adapter : MessageAdapter Msg Body) where
  -- The condition on which `_dispatch_backlog` stops.
  abbrev pub IsStopped : Consumer Tp Msg Body → Type 0
  IsStopped c = (c.draining ≡ true) ⊎ ((c.backlog ≡ []) ⊎ (c.slots ≡ 0))

  -- What one turn comes to between two messages.
  turn_done :
      (t : Turn) (c : Consumer Tp Msg Body) (backlog : List (Message Tp Msg)) (slots : ℕ)
      → c.handling ≡ none
      → c.backlog ≡ backlog
      → c.slots ≡ slots
      → (IsStopped c
          × (run adapter
                (replicate handling_moves (continues t.outcome t.sent))
                (dispatched_next adapter backlog slots t.accepted t.delivered c)
              ≡ c))
        ⊎ ((m : Message Tp Msg) × (rest : List (Message Tp Msg)) × (backlog ≡ m ∷ rest)
            × IsBetween rest c.draining (
                run adapter
                  (replicate handling_moves (continues t.outcome t.sent))
                  (dispatched_next adapter backlog slots t.accepted t.delivered c)))
  unfolding dispatched_next
  turn_done t c [] slots free e h =
      inl (inr (inl e), continue_idle adapter t.outcome t.sent handling_moves c free)
  turn_done t c (m ∷ rest) zero free e h =
      inl (inr (inr h), continue_idle adapter t.outcome t.sent handling_moves c free)
  turn_done t c (m ∷ rest) (suc slots) free e h = inr (
    m,
    rest,
    refl,
    continue_done adapter t.outcome t.sent 4 m.tp m.offset
        (handle_one_message adapter m.value t.accepted t.delivered)
        (record c {
          backlog = rest;
          slots = slots;
          handling = some (handled adapter m t.accepted t.delivered);
        })
        refl (length-handle_one_message adapter m.value t.accepted t.delivered),
  )

  after_taking :
      (t : Turn) (c : Consumer Tp Msg Body)
      → c.handling ≡ none
      → c.draining ≡ false
      → move adapter (takes t.accepted t.delivered) c
        ≡ dispatched_next adapter c.backlog c.slots t.accepted t.delivered c
  unfolding move
  after_taking t c free going =
      if_off c.draining c _ going
      ∙ ap (λ h. idle h (dispatched_next adapter c.backlog c.slots t.accepted t.delivered c) c) free

  pub run-append :
      (ms ns : List (Move Tp Msg)) (c : Consumer Tp Msg Body)
      → run adapter (ms ++ ns) c ≡ run adapter ns (run adapter ms c)
  unfolding run
  run-append [] ns c = refl
  run-append (m ∷ ms) ns c = run-append ms ns (move adapter m c)

  turn_idle :
      (t : Turn) (c : Consumer Tp Msg Body)
      → c.handling ≡ none
      → c.draining ≡ true
      → run adapter (turn_moves t) c ≡ c
  unfolding run move
  turn_idle t c free halted =
      ap (run adapter (replicate handling_moves (continues t.outcome t.sent)))
        (if_on c.draining c _ halted)
      ∙ continue_idle adapter t.outcome t.sent handling_moves c free

  no_slot :
      (backlog : List (Message Tp Msg)) (t : Turn) (c : Consumer Tp Msg Body)
      → dispatched_next adapter backlog 0 t.accepted t.delivered c ≡ c
  unfolding dispatched_next
  no_slot [] t c = refl
  no_slot (m ∷ rest) t c = refl

  taking_stopped :
      (t : Turn) (c : Consumer Tp Msg Body)
      → (c.backlog ≡ []) ⊎ (c.slots ≡ 0)
      → dispatched_next adapter c.backlog c.slots t.accepted t.delivered c ≡ c
  unfolding dispatched_next
  taking_stopped t c (inl e) =
      ap (λ b. dispatched_next adapter b c.slots t.accepted t.delivered c) e
  taking_stopped t c (inr e) =
      ap (λ s. dispatched_next adapter c.backlog s t.accepted t.delivered c) e
      ∙ no_slot c.backlog t c

  turn_stopped :
      (t : Turn) (c : Consumer Tp Msg Body)
      → c.handling ≡ none
      → IsStopped c
      → run adapter (turn_moves t) c ≡ c
  unfolding run
  turn_stopped t c free (inl halted) = turn_idle t c free halted
  turn_stopped t c free (inr stuck) = elim (Bool-cases c.draining) [
    | inl halted ↦ turn_idle t c free halted
    | inr going ↦
        ap (run adapter (replicate handling_moves (continues t.outcome t.sent)))
          (after_taking t c free going ∙ taking_stopped t c stuck)
        ∙ continue_idle adapter t.outcome t.sent handling_moves c free
  ]

  stopped_stays :
      (turns : List Turn) (c : Consumer Tp Msg Body)
      → c.handling ≡ none
      → IsStopped c
      → run adapter (dispatch_backlog turns) c ≡ c
  unfolding dispatch_backlog run
  stopped_stays [] c free stopped = refl
  stopped_stays (t ∷ turns) c free stopped =
      run-append (turn_moves t) (dispatch_backlog turns) c
      ∙ ap (run adapter (dispatch_backlog turns)) (turn_stopped t c free stopped)
      ∙ stopped_stays turns c free stopped

  pub turn_step :
      (t : Turn) (c : Consumer Tp Msg Body)
      → c.handling ≡ none
      → (IsStopped c × (run adapter (turn_moves t) c ≡ c))
        ⊎ ((m : Message Tp Msg) × (rest : List (Message Tp Msg)) × (c.backlog ≡ m ∷ rest)
            × IsBetween rest c.draining (run adapter (turn_moves t) c))
  unfolding run
  turn_step t c free = elim (Bool-cases c.draining) [
    | inl halted ↦ inl (inl halted, turn_idle t c free halted)
    | inr going ↦
        subst
          (λ d.
            (IsStopped c × (run adapter rests d ≡ c))
            ⊎ ((m : Message Tp Msg) × (rest : List (Message Tp Msg)) × (c.backlog ≡ m ∷ rest)
                × IsBetween rest c.draining (run adapter rests d)))
          (sym (after_taking t c free going)) (turn_done t c c.backlog c.slots free refl refl)
  ]
    where
      rests : List (Move Tp Msg)
      rests = replicate handling_moves (continues t.outcome t.sent)

  -- With a turn for every message of the backlog, and no other thread's move in between, the
  -- dispatch loop that starts between two messages comes to its end: the thread is again between two
  -- messages, and the process is draining, the backlog is empty or no slot is free.
  pub dispatch_backlog-IsStopped :
      (turns : List Turn) (c : Consumer Tp Msg Body)
      → c.handling ≡ none
      → length c.backlog ≤ length turns
      → IsStopped (run adapter (dispatch_backlog turns) c)
        × ((run adapter (dispatch_backlog turns) c).handling ≡ none)
  unfolding dispatch_backlog run
  dispatch_backlog-IsStopped [] c free enough = (inr (inl (no_messages c.backlog enough)), free)
    where
      no_messages : (ms : List (Message Tp Msg)) → length ms ≤ 0 → ms ≡ []
      no_messages [] h = refl
      no_messages (m ∷ ms) h = absurd (omega arith)
  dispatch_backlog-IsStopped (t ∷ turns) c free enough = elim (turn_step t c free) [
    | inl (stopped, same) ↦
        subst IsEnd (sym (later c same ∙ stopped_stays turns c free stopped)) (stopped, free)
    | inr (m, rest, e, done) ↦
        subst IsEnd (sym (run-append (turn_moves t) (dispatch_backlog turns) c)) (
          dispatch_backlog-IsStopped turns (run adapter (turn_moves t) c) done.free
            (omega (arith, ap length done.same_backlog, ap length e, enough)))
  ]
    where
      IsEnd : Consumer Tp Msg Body → Type 0
      IsEnd d = IsStopped d × (d.handling ≡ none)

      later :
          (d : Consumer Tp Msg Body)
          → run adapter (turn_moves t) c ≡ d
          → run adapter (dispatch_backlog (t ∷ turns)) c ≡ run adapter (dispatch_backlog turns) d
      later d same =
          run-append (turn_moves t) (dispatch_backlog turns) c
          ∙ ap (run adapter (dispatch_backlog turns)) same
