-- ===== src/Utils/Consumer/Polling.antt =====
-- One cycle of the poll loop comes to its end (`_poll_once` of src/utils/kafkaConsumer.py).
use agentic_resident_crm.Prelude.{
  ℕ, ◌+◌, ◌≤◌, Bool, List, [], ◌∷◌, ◌++◌, none, length, length-append, map, not, contains,
  length-keep-le, Eq, ◌≡◌, ap, sym, subst, ◌∙◌, arith, inl, inr,
}
use agentic_resident_crm.Utils.Consumer.Messages.{MessageAdapter}
use agentic_resident_crm.Utils.Consumer.State.{
  Message, Consumer, idle, commit_ready_offsets, on_partitions_revoked, on_partitions_assigned,
}
use agentic_resident_crm.Utils.Consumer.Loop.{drains, fetches, move, run}
use agentic_resident_crm.Utils.Consumer.Cycle.{
  Turn, Rebalance, revoked, assigned, rebalance_move, turn_moves, dispatch_backlog, poll_once,
}
use agentic_resident_crm.Utils.Consumer.Ends.{
  IsStopped, run-append, turn_step, dispatch_backlog-IsStopped,
}

module _ {Tp Msg Body : Type 0} ⦃eq : Eq Tp⦄ (adapter : MessageAdapter Msg Body) where
  -- The thread is between two messages, with no more of them waiting than this.
  pub record IsCalm (most : ℕ) (c : Consumer Tp Msg Body) : Type 0 where
    pub free : c.handling ≡ none
    pub bounded : length c.backlog ≤ most

  when_idle :
      (most : ℕ) (next c : Consumer Tp Msg Body)
      → c.handling ≡ none
      → IsCalm most next
      → IsCalm most (idle c.handling next c)
  when_idle most next c free calm = subst (IsCalm most) (sym (ap (λ h. idle h next c) free)) calm

  dispatch_backlog-IsCalm :
      (turns : List Turn) (most : ℕ) (c : Consumer Tp Msg Body)
      → IsCalm most c
      → IsCalm most (run adapter (dispatch_backlog turns) c)
  unfolding dispatch_backlog run
  dispatch_backlog-IsCalm [] most c calm = calm
  dispatch_backlog-IsCalm (t ∷ turns) most c calm =
      subst (IsCalm most) (sym (run-append adapter (turn_moves t) (dispatch_backlog turns) c)) (
        dispatch_backlog-IsCalm turns most (run adapter (turn_moves t) c)
          (elim (turn_step adapter t c calm.free) [
            | inl (stopped, same) ↦ subst (IsCalm most) (sym same) calm
            | inr (m, rest, e, done) ↦ record {
              free = done.free;
              bounded = omega (arith, ap length done.same_backlog, ap length e, calm.bounded);
            }
          ]))

  rebalance-IsCalm :
      (r : Rebalance Tp) (most : ℕ) (c : Consumer Tp Msg Body)
      → IsCalm most c
      → IsCalm most (move adapter (rebalance_move r) c)
  unfolding move on_partitions_revoked on_partitions_assigned
  rebalance-IsCalm (revoked tps ok) most c calm =
      when_idle most (on_partitions_revoked tps ok c) c calm.free (record {
        free = calm.free;
        bounded =
            omega (arith, length-keep-le (λ m. not (contains tps m.tp)) c.backlog, calm.bounded);
      })
  rebalance-IsCalm (assigned tps) most c calm =
      when_idle most (on_partitions_assigned tps c) c calm.free
        (record { free = calm.free; bounded = calm.bounded })

  rebalances-IsCalm :
      (rs : List (Rebalance Tp)) (most : ℕ) (c : Consumer Tp Msg Body)
      → IsCalm most c
      → IsCalm most (run adapter (map rebalance_move rs) c)
  unfolding run
  rebalances-IsCalm [] most c calm = calm
  rebalances-IsCalm (r ∷ rs) most c calm =
      rebalances-IsCalm rs most (move adapter (rebalance_move r) c) (rebalance-IsCalm r most c calm)

  drain-IsCalm :
      (ok : Bool) (most : ℕ) (c : Consumer Tp Msg Body)
      → IsCalm most c
      → IsCalm most (move adapter (drains ok) c)
  unfolding move commit_ready_offsets
  drain-IsCalm ok most c calm =
      when_idle most (commit_ready_offsets ok c) c calm.free
        (record { free = calm.free; bounded = calm.bounded })

  fetch-IsCalm :
      (records : List (Message Tp Msg)) (most : ℕ) (c : Consumer Tp Msg Body)
      → IsCalm most c
      → IsCalm (most + length records) (move adapter (fetches records) c)
  unfolding move
  fetch-IsCalm records most c calm =
      when_idle (most + length records) (record c { backlog = c.backlog ++ records }) c calm.free
        (record {
          free = calm.free;
          bounded = omega (arith, length-append c.backlog records, calm.bounded);
        })

  -- One poll cycle that starts between two messages, with no other thread's move in between and
  -- whatever the broker answers, whichever rebalances happen and whatever messages come, ends
  -- between two messages with the process draining, the backlog empty or no slot free, when its last
  -- dispatch has a turn for every message that waited and every one that came.
  pub poll_once-IsStopped :
      (ok : Bool) (before : List Turn) (rebalances : List (Rebalance Tp))
      (records : List (Message Tp Msg)) (after : List Turn) (c : Consumer Tp Msg Body)
      → c.handling ≡ none
      → length c.backlog + length records ≤ length after
      → IsStopped adapter (run adapter (poll_once ok before rebalances records after) c)
        × ((run adapter (poll_once ok before rebalances records after) c).handling ≡ none)
  unfolding poll_once run
  poll_once-IsStopped ok before rebalances records after c free enough =
      subst IsEnd (sym in_order) (
        dispatch_backlog-IsStopped adapter after fetched calm.free
          (omega (arith, calm.bounded, enough)))
    where
      IsEnd : Consumer Tp Msg Body → Type 0
      IsEnd d = IsStopped adapter d × (d.handling ≡ none)

      drained : Consumer Tp Msg Body
      drained = move adapter (drains ok) c

      dispatched : Consumer Tp Msg Body
      dispatched = run adapter (dispatch_backlog before) drained

      rebalanced : Consumer Tp Msg Body
      rebalanced = run adapter (map rebalance_move rebalances) dispatched

      fetched : Consumer Tp Msg Body
      fetched = move adapter (fetches records) rebalanced

      calm : IsCalm (length c.backlog + length records) fetched
      calm =
          let most = length c.backlog in
          fetch-IsCalm records most rebalanced (
            rebalances-IsCalm rebalances most dispatched (
              dispatch_backlog-IsCalm before most drained
                (drain-IsCalm ok most c (record { free = free; bounded = omega arith }))))

      in_order :
          run adapter (poll_once ok before rebalances records after) c
          ≡ run adapter (dispatch_backlog after) fetched
      in_order =
          run-append adapter (dispatch_backlog before) _ drained
          ∙ run-append adapter (map rebalance_move rebalances) _ dispatched
