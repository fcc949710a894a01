-- ===== src/Utils/Consumer/Rebalance.antt =====
-- What a revocation leaves of the partitions it takes (src/utils/kafkaConsumer.py).
use agentic_resident_crm.Prelude.{
  ℕ, Bool, true, false, List, [], ◌∷◌, All, Eq, ◌==◌, nat_eq, contains, ◌≡◌, ap, arith, if_off, ◌⊎◌,
  inl, inr, Bool-cases,
}
use agentic_resident_crm.Utils.Consumer.Tracker.{
  Tracker, offsets, set_completed, committable_for, forget,
}
use agentic_resident_crm.Utils.Consumer.Offsets.{forget-dispatched}
use agentic_resident_crm.Utils.Consumer.State.{
  Message, Consumer, drop_backlog, on_partitions_revoked,
}

module _ {Tp : Type 0} ⦃eq : Eq Tp⦄ where
  set_completed-forget :
      (tps : List Tp) (t : Tracker Tp) (tp : Tp) (o : ℕ)
      → contains tps tp ≡ true
      → set_completed tp o (forget tps t) ≡ forget tps t
  unfolding set_completed
  set_completed-forget tps t tp o lost =
      if_off (contains (offsets tp (forget tps t).dispatched) o) _ (forget tps t)
        (ground (arith, forget-dispatched tps t tp o))

module _ {Tp Msg : Type 0} ⦃eq : Eq Tp⦄ where
  drop_backlog-kept :
      (lost : List Tp) (tp : Tp) (backlog : List (Message Tp Msg))
      → contains lost tp ≡ true
      → All (λ m. (m.tp == tp) ≡ false) (drop_backlog lost backlog)
  drop_backlog-kept lost tp [] h = tt
  drop_backlog-kept lost tp (m ∷ rest) h = elim (Bool-cases (contains lost m.tp)) [
    | inl out ↦ rw out (drop_backlog-kept lost tp rest h)
    | inr stays ↦ rw stays (other stays (Bool-cases (m.tp == tp)), drop_backlog-kept lost tp rest h)
  ]
    where
      other :
          contains lost m.tp ≡ false
          → ((m.tp == tp) ≡ true) ⊎ ((m.tp == tp) ≡ false)
          → (m.tp == tp) ≡ false
      other stays (inl same) =
          ground (arith, h, stays, ap (contains lost) ((eq.same_iff m.tp tp).0 same))
      other stays (inr differs) = differs

module _ {Tp Msg Body : Type 0} ⦃eq : Eq Tp⦄ where
  -- After a revocation no undispatched message of the lost partitions is left, and a completion that
  -- a worker reports for one of them changes nothing.
  pub on_partitions_revoked-IsForgotten :
      (revoked : List Tp) (ok : Bool) (c : Consumer Tp Msg Body) (tp : Tp) (o : ℕ)
      → contains revoked tp ≡ true
      → let after = on_partitions_revoked revoked ok c in
        All (λ m. (m.tp == tp) ≡ false) after.backlog
        × (set_completed tp o after.tracker ≡ after.tracker)
  unfolding on_partitions_revoked
  on_partitions_revoked-IsForgotten revoked ok c tp o lost = (
    drop_backlog-kept revoked tp c.backlog lost,
    set_completed-forget revoked (committable_for revoked c.tracker).1 tp o lost,
  )
