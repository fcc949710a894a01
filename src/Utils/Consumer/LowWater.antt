-- ===== src/Utils/Consumer/LowWater.antt =====
-- The position a drain offers for a partition is its low-water mark (`OffsetTracker` of
-- src/utils/kafkaConsumer.py).
use agentic_resident_crm.Prelude.{
  ℕ, suc, ◌≤◌, ◌<◌, Bool, true, false, ◌||◌, List, [], ◌∷◌, Option, none, some, Eq, ◌==◌, nat_eq,
  contains, ◌≡◌, refl, ap, sym, subst, ◌∙◌, arith, inl, inr, Bool-cases, if◌then◌else◌,
}
use agentic_resident_crm.Utils.Consumer.Sets.{
  minus, highest, find, keys, highest-contained, le-highest,
}
use agentic_resident_crm.Utils.Consumer.Tracker.{
  Tracker, position, offsets, still_running, committable, retired, with_commit, take_from,
  take_committable,
}
use agentic_resident_crm.Utils.Consumer.Offsets.{offsets-put}
use agentic_resident_crm.Utils.Consumer.Floor.{
  safe_below-completed, safe_below-running, safe_below-safe, safe_below-waits,
}
use agentic_resident_crm.Utils.Consumer.Drain.{committable-absent}

abbrev position_of : List ℕ → Option ℕ
position_of [] = none
position_of (o ∷ os) = some (position o os)

if_none : (b : Bool) (x : Option ℕ) → x ≡ none → (if b then x else none) ≡ x
if_none true x h = refl
if_none false x h = sym h

module _ {Tp : Type 0} ⦃eq : Eq Tp⦄ where
  committable-other :
      (k a : Tp) (os : List ℕ) (t : Tracker Tp)
      → (k == a) ≡ false
      → committable a (retired k os t) ≡ committable a t
  unfolding retired
  committable-other k a [] t h = refl
  committable-other k a (o ∷ os) t h =
      rw
        (
          offsets-put k a (minus (offsets k t.dispatched) (o ∷ os)) t.dispatched,
          offsets-put k a (minus (offsets k t.completed) (o ∷ os)) t.completed,
          h,
        )
        refl

  find-take_from :
      (tps : List Tp) (a : Tp) (t : Tracker Tp)
      → find a (take_from tps t).0
        ≡ (if contains tps a then position_of (committable a t) else none)
  unfolding take_from retired
  find-take_from [] a t = refl
  find-take_from (k ∷ tps) a t =
      by_set (committable k t) refl (λ os. find-take_from tps a (retired k os t))
    where
      own :
          (os : List ℕ)
          → committable k t ≡ os
          → (k == a) ≡ true
          → position_of (committable a t) ≡ position_of os
      own os e same =
          sym (ap (λ j. position_of (committable j t)) ((eq.same_iff k a).0 same))
          ∙ ap position_of e

      by_set :
          (os : List ℕ)
          → committable k t ≡ os
          → ((os : List ℕ)
              → find a (take_from tps (retired k os t)).0
                ≡ (if contains tps a then position_of (committable a (retired k os t)) else none))
          → find a (with_commit k os (take_from tps (retired k os t))).0
            ≡ (if k == a || contains tps a then position_of (committable a t) else none)
      by_set [] e later = elim (Bool-cases (k == a)) [
        | inl same ↦
            rw same
              (later [] ∙ if_none (contains tps a) (position_of (committable a t)) (own [] e same))
        | inr other ↦ rw other (later [])
      ]
      by_set (o ∷ os) e later = elim (Bool-cases (k == a)) [
        | inl same ↦ rw same (sym (own (o ∷ os) e same))
        | inr other ↦ rw other (
            later (o ∷ os)
            ∙ ap (λ xs. if contains tps a then position_of xs else none)
                (committable-other k a (o ∷ os) t other))
      ]

  find-take_committable :
      (a : Tp) (t : Tracker Tp) → find a (take_committable t).0 ≡ position_of (committable a t)
  unfolding take_committable
  find-take_committable a t =
      find-take_from (keys t.completed) a t ∙ elim (Bool-cases (contains (keys t.completed) a)) [
        | inl tracked ↦ rw tracked refl
        | inr absent ↦ rw absent (ap position_of (sym (committable-absent a t absent)))
      ]

  -- The low-water mark of a partition: with no position, each completed offset waits for one that
  -- runs below it. A position is one above a completed offset and not above any that runs, and it is
  -- above every completed offset that has none running below it.
  abbrev pub IsLowWater : Tp → Tracker Tp → Option ℕ → Type 0
  IsLowWater tp t none =
      (o : ℕ)
      → contains (offsets tp t.completed) o ≡ true
      → (r : ℕ) × (contains (still_running tp t) r ≡ true) × (r ≤ o)
  IsLowWater tp t (some p) =
      ((o : ℕ) × (contains (offsets tp t.completed) o ≡ true) × (p ≡ suc o))
      × ((r : ℕ) → contains (still_running tp t) r ≡ true → p ≤ r)
      × ((o : ℕ)
          → contains (offsets tp t.completed) o ≡ true
          → ((r : ℕ) → contains (still_running tp t) r ≡ true → o < r)
          → o < p)

  position_of-IsLowWater :
      (tp : Tp) (t : Tracker Tp) (os : List ℕ)
      → committable tp t ≡ os
      → IsLowWater tp t (position_of os)
  position_of-IsLowWater tp t [] e = λ o h.
      safe_below-waits (still_running tp t) (offsets tp t.completed) o h
        (ground (arith, ap (λ xs. contains xs o) e))
  position_of-IsLowWater tp t (o ∷ os) e = ((highest o os, completed, refl), above, below)
    where
      top : contains (committable tp t) (highest o os) ≡ true
      top = ap (λ xs. contains xs (highest o os)) e ∙ highest-contained o os

      completed : contains (offsets tp t.completed) (highest o os) ≡ true
      completed =
          safe_below-completed (still_running tp t) (offsets tp t.completed) (highest o os) top

      above : (r : ℕ) → contains (still_running tp t) r ≡ true → position o os ≤ r
      above r running = omega (
        arith,
        safe_below-running (still_running tp t) (offsets tp t.completed) (highest o os) r top
            running,
      )

      below :
          (n : ℕ)
          → contains (offsets tp t.completed) n ≡ true
          → ((r : ℕ) → contains (still_running tp t) r ≡ true → n < r)
          → n < position o os
      below n h lower = omega (
        arith,
        le-highest o os n (
            sym (ap (λ xs. contains xs n) e)
            ∙ safe_below-safe (still_running tp t) (offsets tp t.completed) n h lower),
      )

  -- What a drain offers for a partition is its low-water mark.
  pub take_committable-IsLowWater :
      (t : Tracker Tp) (tp : Tp) → IsLowWater tp t (find tp (take_committable t).0)
  take_committable-IsLowWater t tp =
      subst (IsLowWater tp t) (sym (find-take_committable tp t))
        (position_of-IsLowWater tp t (committable tp t) refl)
