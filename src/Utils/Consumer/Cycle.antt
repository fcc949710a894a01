-- ===== src/Utils/Consumer/Cycle.antt =====
-- `_dispatch_backlog` and `_poll_once` of src/utils/kafkaConsumer.py as the moves that they make on
-- the loop's thread, in their order; the moves of the workers come in between.
use agentic_resident_crm.Prelude.{ℕ, Bool, List, [], ◌∷◌, ◌++◌, replicate, map}
use agentic_resident_crm.Utils.Consumer.Messages.{Forwarding}
use agentic_resident_crm.Utils.Consumer.State.{Message}
use agentic_resident_crm.Utils.Consumer.Loop.{
  Move, takes, continues, drains, fetches, revokes, assigns,
}

-- What one message's calls are answered, and those of the worker it may be handed to.
pub record Turn : Type 0 where
  pub accepted : Bool
  pub delivered : Bool
  pub outcome : Forwarding
  pub sent : Bool

-- A message takes four effects at most, and one move more ends its handling.
abbrev pub handling_moves : ℕ
handling_moves = 5

-- What a rebalance calls on the listener, within the poll.
pub data Rebalance (Tp : Type 0) : Type 0 where
  revoked : List Tp → Bool → Rebalance Tp
  assigned : List Tp → Rebalance Tp

module _ {Tp Msg : Type 0} where
  abbrev pub turn_moves : Turn → List (Move Tp Msg)
  turn_moves t =
      takes t.accepted t.delivered ∷ replicate handling_moves (continues t.outcome t.sent)

  unfoldable pub dispatch_backlog : List Turn → List (Move Tp Msg)
  dispatch_backlog [] = []
  dispatch_backlog (t ∷ turns) = turn_moves t ++ dispatch_backlog turns

  abbrev pub rebalance_move : Rebalance Tp → Move Tp Msg
  rebalance_move (revoked tps ok) = revokes tps ok
  rebalance_move (assigned tps) = assigns tps

  -- One cycle: whether the broker accepts its commit, the turns before and after the poll, the
  -- rebalances within it, and the messages it returns.
  unfoldable pub poll_once :
      Bool
      → List Turn
      → List (Rebalance Tp)
      → List (Message Tp Msg)
      → List Turn
      → List (Move Tp Msg)
  poll_once ok before rebalances records after =
      drains ok
      ∷ (dispatch_backlog before
          ++ (map rebalance_move rebalances ++ fetches records ∷ dispatch_backlog after))
