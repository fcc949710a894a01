-- ===== src/Utils/Consumer/Account.antt =====
-- What the offset tracker of src/utils/kafkaConsumer.py accounts for, and that every method keeps it.
use agentic_resident_crm.Prelude.{
  ℕ, Bool, true, false, not, ◌&&◌, ◌||◌, List, [], ◌∷◌, Eq, ◌==◌, nat_eq, contains, ◌≡◌, refl, ap,
  arith, inl, inr, Bool-cases,
}
use agentic_resident_crm.Utils.Consumer.Tracker.{
  Tracker, offsets, set_dispatched, set_completed, set_abandoned, retired, forget,
}
use agentic_resident_crm.Utils.Consumer.State.{without}
use agentic_resident_crm.Utils.Consumer.Offsets.{
  forget-dispatched, forget-completed, contains-put-add, contains-put-minus, contains-discard_at,
}

module _ {Tp : Type 0} ⦃eq : Eq Tp⦄ where
  -- A message is in a list of messages.
  abbrev pub has : List (Tp × ℕ) → Tp → ℕ → Bool
  has [] tp o = false
  has ((first, n) ∷ rest) tp o = (first == tp && n == o) || has rest tp o

  -- Every completed offset is settled, and every message handed out is dispatched still or settled.
  pub record Accounts (t : Tracker Tp) (handed settled : List (Tp × ℕ)) : Type 0 where
    pub done :
        (tp : Tp) (o : ℕ) → contains (offsets tp t.completed) o ≡ true → has settled tp o ≡ true
    pub kept :
        (tp : Tp) (o : ℕ)
        → has handed tp o ≡ true
        → (contains (offsets tp t.dispatched) o || has settled tp o) ≡ true

  pub has_same :
      (settled : List (Tp × ℕ)) (tp a : Tp) (o x : ℕ)
      → (tp == a) ≡ true
      → o ≡ x
      → has settled tp o ≡ has settled a x
  has_same settled tp a o x h e = cc ((eq.same_iff tp a).0 h, e)

  pub has-first : (tp : Tp) (o : ℕ) (rest : List (Tp × ℕ)) → has ((tp, o) ∷ rest) tp o ≡ true
  has-first tp o rest = ground (arith, eq.same_iff tp tp)

  has-without :
      (lost : List Tp) (handed : List (Tp × ℕ)) (a : Tp) (x : ℕ)
      → has (without lost handed) a x ≡ (has handed a x && not (contains lost a))
  has-without lost [] a x = refl
  has-without lost ((tp, o) ∷ rest) a x =
      ground
        (arith, has-without lost rest a x, eq.same_iff tp a, ap (contains lost) {x = tp} {y = a})

  module _ (t : Tracker Tp) (handed settled : List (Tp × ℕ)) (acc : Accounts t handed settled) where
    pub Accounts-settle : (tp : Tp) (o : ℕ) → Accounts t handed ((tp, o) ∷ settled)
    Accounts-settle tp o = record {
      done = λ a x h. ground (arith, acc.done a x h);
      kept = λ a x h. ground (arith, acc.kept a x h);
    }

    pub Accounts-set_dispatched :
        (tp : Tp) (o : ℕ) → Accounts (set_dispatched tp o t) ((tp, o) ∷ handed) settled
    Accounts-set_dispatched tp o = record {
      done = acc.done;
      kept = λ a x h. ground (arith, acc.kept a x, contains-put-add tp a o x t.dispatched);
    }

    pub Accounts-retired :
        (tp : Tp) (os : List ℕ)
        → ((x : ℕ) → contains os x ≡ true → has settled tp x ≡ true)
        → Accounts (retired tp os t) handed settled
    unfolding retired
    Accounts-retired tp [] all = acc
    Accounts-retired tp (o ∷ os) all = record {
      done = λ a x h. ground (arith, acc.done a x, contains-put-minus tp a (o ∷ os) x t.completed);
      kept = λ a x h. ground (
        arith,
        acc.kept a x,
        contains-put-minus tp a (o ∷ os) x t.dispatched,
        all x,
        eq.same_iff tp a,
        ap (λ k. has settled k x) {x = tp} {y = a},
      );
    }

    pub Accounts-set_abandoned :
        (tp : Tp) (o : ℕ) → has settled tp o ≡ true → Accounts (set_abandoned tp o t) handed settled
    unfolding set_abandoned
    Accounts-set_abandoned tp o is_settled = record {
      done = λ a x h. ground (arith, acc.done a x, contains-discard_at tp a o x t.completed);
      kept = λ a x h. ground (
        arith,
        acc.kept a x,
        contains-discard_at tp a o x t.dispatched,
        is_settled,
        eq.same_iff tp a,
        has_same settled tp a o x,
      );
    }

    pub Accounts-set_completed :
        (tp : Tp) (o : ℕ) → has settled tp o ≡ true → Accounts (set_completed tp o t) handed settled
    unfolding set_completed
    Accounts-set_completed tp o is_settled =
        elim (Bool-cases (contains (offsets tp t.dispatched) o)) [
          | inl tracked ↦ rw tracked (record {
            done = λ a x h. ground (
              arith,
              acc.done a x,
              contains-put-add tp a o x t.completed,
              is_settled,
              has_same settled tp a o x,
            );
            kept = acc.kept;
          })
          | inr untracked ↦ rw untracked acc
        ]

    pub Accounts-forget : (tps : List Tp) → Accounts (forget tps t) (without tps handed) settled
    Accounts-forget tps = record {
      done = λ a x h. ground (arith, acc.done a x, forget-completed tps t a x);
      kept = λ a x h.
          ground (arith, acc.kept a x, forget-dispatched tps t a x, has-without tps handed a x);
    }
