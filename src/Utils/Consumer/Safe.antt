-- ===== src/Utils/Consumer/Safe.antt =====
-- What the consumer keeps in every order of its threads' effects (src/utils/kafkaConsumer.py).
use agentic_resident_crm.Prelude.{
  ℕ, zero, suc, Bool, true, false, List, [], ◌∷◌, Option, none, some, All, Eq, nat_eq, contains,
  keep, ◌≡◌,
}
use agentic_resident_crm.Utils.Consumer.Tracker.{committable_for, tracked_partitions}
use agentic_resident_crm.Utils.Consumer.Messages.{
  MessageAdapter, Effect, Forwarding, tracks, completes, abandons, publishes, forwards, skips,
  saves, releases, submits, forwarded,
}
use agentic_resident_crm.Utils.Consumer.State.{
  Message, Consumer, advanced, commit_ready_offsets, on_partitions_revoked, on_partitions_assigned,
}
use agentic_resident_crm.Utils.Consumer.Loop.{perform, dispatched_next, carried_on, worked}
use agentic_resident_crm.Utils.Consumer.Account.{
  has, Accounts, Accounts-settle, Accounts-set_dispatched, Accounts-set_abandoned,
  Accounts-set_completed, Accounts-forget,
}
use agentic_resident_crm.Utils.Consumer.Justified.{
  allowed, justified, allowed_now, justified-process_and_commit, justified-handle_one_message,
}
use agentic_resident_crm.Utils.Consumer.Threads.{
  IsJustified, IsJustifiedIn, IsDue, settled_after, settled_after-All, settled_after-In,
  settled_after-own,
}
use agentic_resident_crm.Utils.Consumer.Floor.{take_committable-IsFloor, committable_for-IsFloor}

module _ {Tp Msg Body : Type 0} ⦃eq : Eq Tp⦄ where
  pub record IsSafe (c : Consumer Tp Msg Body) : Type 0 where
    pub accounts : Accounts c.tracker c.handed c.settled
    pub working : All (IsJustified c.settled) c.workers
    pub in_order : IsJustifiedIn c.settled c.handling

module _ {Tp Msg Body : Type 0} ⦃eq : Eq Tp⦄ (adapter : MessageAdapter Msg Body) where
  perform-IsSafe :
      (outcome : Forwarding) (delivered : Bool) (e : Effect Body) (tp : Tp) (o : ℕ)
      (c : Consumer Tp Msg Body)
      → Accounts c.tracker c.handed c.settled
      → allowed e (has c.settled tp o) ≡ true
      → All (IsJustified (settled_after e tp o c.settled)) c.workers
      → IsJustifiedIn (settled_after e tp o c.settled) c.handling
      → IsSafe (perform adapter outcome delivered e tp o c)
  unfolding perform
  perform-IsSafe outcome delivered tracks tp o c acc ok ws h = record {
    accounts = Accounts-set_dispatched c.tracker c.handed c.settled acc tp o;
    working = ws;
    in_order = h;
  }
  perform-IsSafe outcome delivered completes tp o c acc ok ws h = record {
    accounts = Accounts-set_completed c.tracker c.handed c.settled acc tp o ok;
    working = ws;
    in_order = h;
  }
  perform-IsSafe outcome delivered abandons tp o c acc ok ws h = record {
    accounts = Accounts-set_abandoned c.tracker c.handed c.settled acc tp o ok;
    working = ws;
    in_order = h;
  }
  perform-IsSafe outcome delivered publishes tp o c acc ok ws h = record {
    accounts = Accounts-settle c.tracker c.handed c.settled acc tp o;
    working = ws;
    in_order = h;
  }
  perform-IsSafe outcome delivered forwards tp o c acc ok ws h = record {
    accounts = Accounts-settle c.tracker c.handed c.settled acc tp o;
    working = ws;
    in_order = h;
  }
  perform-IsSafe outcome delivered skips tp o c acc ok ws h = record {
    accounts = Accounts-settle c.tracker c.handed c.settled acc tp o;
    working = ws;
    in_order = h;
  }
  perform-IsSafe outcome delivered saves tp o c acc ok ws h = record {
    accounts = acc;
    working = ws;
    in_order = h;
  }
  perform-IsSafe outcome delivered releases tp o c acc ok ws h = record {
    accounts = acc;
    working = ws;
    in_order = h;
  }
  perform-IsSafe outcome delivered (submits body) tp o c acc ok ws h = record {
    accounts = acc;
    working = (
      justified-process_and_commit Body (adapter.identity_of body) outcome delivered
          (has c.settled tp o),
      ws,
    );
    in_order = h;
  }

  pub carried_on-IsSafe :
      (outcome : Forwarding) (delivered : Bool) (tp : Tp) (o : ℕ) (left : List (Effect Body))
      (c : Consumer Tp Msg Body)
      → IsSafe c
      → justified (has c.settled tp o) left ≡ true
      → IsSafe (carried_on adapter outcome delivered tp o left c)
  unfolding carried_on
  carried_on-IsSafe outcome delivered tp o [] c safe h = record {
    accounts = safe.accounts;
    working = safe.working;
    in_order = tt;
  }
  carried_on-IsSafe outcome delivered tp o (e ∷ left) c safe h =
      perform-IsSafe outcome delivered e tp o
        (record c { handling = some (record { tp = tp; offset = o; left = left }) }) safe.accounts
        (allowed_now e left (has c.settled tp o) h)
        (settled_after-All e tp o c.settled c.workers safe.working)
        (settled_after-own e tp o c.settled left h)

  pub worked-IsSafe :
      (d : Option (Effect Body × (Tp × ℕ))) (n : ℕ) (c : Consumer Tp Msg Body)
      → IsSafe c
      → IsDue c.settled (advanced n c.workers) d
      → IsSafe (worked adapter d n c)
  unfolding worked
  worked-IsSafe none n c safe ready = safe
  worked-IsSafe (some (e, (tp, o))) n c safe (ok, ws) =
      perform-IsSafe forwarded false e tp o (record c { workers = advanced n c.workers })
        safe.accounts ok ws (settled_after-In e tp o c.settled c.handling safe.in_order)

  pub dispatched_next-IsSafe :
      (backlog : List (Message Tp Msg)) (slots : ℕ) (accepted delivered : Bool)
      (c : Consumer Tp Msg Body)
      → IsSafe c
      → IsSafe (dispatched_next adapter backlog slots accepted delivered c)
  unfolding dispatched_next
  dispatched_next-IsSafe [] slots accepted delivered c safe = safe
  dispatched_next-IsSafe (m ∷ rest) zero accepted delivered c safe = safe
  dispatched_next-IsSafe (m ∷ rest) (suc slots) accepted delivered c safe = record {
    accounts = safe.accounts;
    working = safe.working;
    in_order =
        justified-handle_one_message adapter m.value accepted delivered
          (has c.settled m.tp m.offset);
  }

module _ {Tp Msg Body : Type 0} ⦃eq : Eq Tp⦄ where
  pub commit_ready_offsets-IsSafe :
      (ok : Bool) (c : Consumer Tp Msg Body) → IsSafe c → IsSafe (commit_ready_offsets ok c)
  unfolding commit_ready_offsets
  commit_ready_offsets-IsSafe ok c safe = record {
    accounts = (take_committable-IsFloor c.handed c.settled c.tracker safe.accounts).1;
    working = safe.working;
    in_order = safe.in_order;
  }

  pub on_partitions_revoked-IsSafe :
      (revoked : List Tp) (ok : Bool) (c : Consumer Tp Msg Body)
      → IsSafe c
      → IsSafe (on_partitions_revoked revoked ok c)
  unfolding on_partitions_revoked
  on_partitions_revoked-IsSafe revoked ok c safe = record {
    accounts =
        Accounts-forget (committable_for revoked c.tracker).1 c.handed c.settled
          (committable_for-IsFloor c.handed c.settled revoked c.tracker safe.accounts).1 revoked;
    working = safe.working;
    in_order = safe.in_order;
  }

  pub on_partitions_assigned-IsSafe :
      (assigned : List Tp) (c : Consumer Tp Msg Body)
      → IsSafe c
      → IsSafe (on_partitions_assigned assigned c)
  unfolding on_partitions_assigned
  on_partitions_assigned-IsSafe assigned c safe = record {
    accounts =
        Accounts-forget c.tracker c.handed c.settled safe.accounts
          (keep (contains assigned) (tracked_partitions c.tracker));
    working = safe.working;
    in_order = safe.in_order;
  }
