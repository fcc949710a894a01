-- ===== src/Utils/Consumer/Floor.antt =====
-- Which positions `take_committable` and `committable_for` commit (src/utils/kafkaConsumer.py).
use agentic_resident_crm.Prelude.{
  false, ◌≤◌, ℕ, ◌<◌, true, not, List, [], ◌∷◌, All, Eq, nat_eq, ltb, contains, keep, ◌≡◌, refl, ap,
  ◌∙◌, arith,
}
use agentic_resident_crm.Utils.Consumer.Sets.{
  lowest, highest, keys, contains-keep, lowest-contained, lowest-le, highest-contained,
}
use agentic_resident_crm.Utils.Consumer.Tracker.{
  Tracker, safe_below, position, offsets, still_running, committable, retired, with_commit,
  take_from, take_committable, committable_for,
}
use agentic_resident_crm.Utils.Consumer.Account.{has, Accounts, Accounts-retired}

-- A completed offset is committable just where every offset that still runs is above it.
pub safe_below-completed :
    (running completed : List ℕ) (o : ℕ)
    → contains (safe_below running completed) o ≡ true
    → contains completed o ≡ true
safe_below-completed [] completed o h = h
safe_below-completed (x ∷ xs) completed o h =
    ground (arith, contains-keep (λ n. ltb n (lowest x xs)) completed o)

pub safe_below-running :
    (running completed : List ℕ) (o r : ℕ)
    → contains (safe_below running completed) o ≡ true
    → contains running r ≡ true
    → o < r
safe_below-running [] completed o r h running = ground arith
safe_below-running (x ∷ xs) completed o r h running =
    ground (arith, contains-keep (λ n. ltb n (lowest x xs)) completed o, lowest-le x xs r running)

pub safe_below-safe :
    (running completed : List ℕ) (o : ℕ)
    → contains completed o ≡ true
    → ((r : ℕ) → contains running r ≡ true → o < r)
    → contains (safe_below running completed) o ≡ true
safe_below-safe [] completed o h below = h
safe_below-safe (x ∷ xs) completed o h below = ground (
  arith,
  contains-keep (λ n. ltb n (lowest x xs)) completed o,
  below (lowest x xs) (lowest-contained x xs),
)

pub safe_below-waits :
    (running completed : List ℕ) (o : ℕ)
    → contains completed o ≡ true
    → contains (safe_below running completed) o ≡ false
    → (r : ℕ) × (contains running r ≡ true) × (r ≤ o)
safe_below-waits [] completed o h waits = absurd (ground arith)
safe_below-waits (x ∷ xs) completed o h waits = (
  lowest x xs,
  lowest-contained x xs,
  ground (arith, contains-keep (λ n. ltb n (lowest x xs)) completed o),
)

module _ {Tp : Type 0} ⦃eq : Eq Tp⦄ where
  -- Every message handed out below a position is settled.
  abbrev pub IsFloor : List (Tp × ℕ) → List (Tp × ℕ) → Tp × ℕ → Type 0
  IsFloor handed settled (tp, position) =
      (o : ℕ) → has handed tp o ≡ true → o < position → has settled tp o ≡ true

  module _ (handed settled : List (Tp × ℕ)) where
    position-IsFloor :
        (tp : Tp) (t : Tracker Tp) (o : ℕ) (os : List ℕ)
        → Accounts t handed settled
        → committable tp t ≡ o ∷ os
        → IsFloor handed settled (tp, position o os)
    position-IsFloor tp t o os acc e x handed_out below = ground (
      arith,
      acc.kept tp x,
      acc.done tp x,
      contains-keep (λ n. not (contains (offsets tp t.completed) n)) (offsets tp t.dispatched) x,
      safe_below-running (still_running tp t) (offsets tp t.completed) (highest o os) x,
      highest-contained o os,
      ap (λ xs. contains xs (highest o os)) e,
    )

    take_from-IsFloor :
        (tps : List Tp) (t : Tracker Tp)
        → Accounts t handed settled
        → All (IsFloor handed settled) (take_from tps t).0
          × Accounts (take_from tps t).1 handed settled
    unfolding take_from
    take_from-IsFloor [] t acc = (tt, acc)
    take_from-IsFloor (tp ∷ tps) t acc =
        by_set (committable tp t) refl
          (λ os e. take_from-IsFloor tps (retired tp os t) (retired-Accounts os e))
      where
        retired-Accounts :
            (os : List ℕ) → committable tp t ≡ os → Accounts (retired tp os t) handed settled
        retired-Accounts os e = Accounts-retired t handed settled acc tp os (λ x h. acc.done tp x (
            safe_below-completed (still_running tp t) (offsets tp t.completed) x
              (ap (λ xs. contains xs x) e ∙ h)))

        by_set :
            (os : List ℕ)
            → committable tp t ≡ os
            → ((os : List ℕ)
                → committable tp t ≡ os
                → All (IsFloor handed settled) (take_from tps (retired tp os t)).0
                  × Accounts (take_from tps (retired tp os t)).1 handed settled)
            → All (IsFloor handed settled) (with_commit tp os (take_from tps (retired tp os t))).0
              × Accounts (with_commit tp os (take_from tps (retired tp os t))).1 handed settled
        by_set [] e rest = rest [] e
        by_set (o ∷ os) e rest =
            ((position-IsFloor tp t o os acc e, (rest (o ∷ os) e).0), (rest (o ∷ os) e).1)

    pub take_committable-IsFloor :
        (t : Tracker Tp)
        → Accounts t handed settled
        → All (IsFloor handed settled) (take_committable t).0
          × Accounts (take_committable t).1 handed settled
    unfolding take_committable
    take_committable-IsFloor t acc = take_from-IsFloor (keys t.completed) t acc

    pub committable_for-IsFloor :
        (wanted : List Tp) (t : Tracker Tp)
        → Accounts t handed settled
        → All (IsFloor handed settled) (committable_for wanted t).0
          × Accounts (committable_for wanted t).1 handed settled
    unfolding committable_for
    committable_for-IsFloor wanted t acc =
        take_from-IsFloor (keep (contains wanted) (keys t.completed)) t acc
