-- ===== src/Utils/Consumer/Drain.antt =====
-- What a drain offers for commit, and what it leaves for the next one: `take_committable` and
-- `_commit_ready_offsets` of src/utils/kafkaConsumer.py.
use agentic_resident_crm.Prelude.{
  ℕ, Bool, true, false, not, ◌&&◌, List, [], ◌∷◌, Eq, ◌==◌, nat_eq, contains, ◌≡◌, refl, ap, sym,
  subst, ◌∙◌, arith, inl, inr, Bool-cases,
}
use agentic_resident_crm.Utils.Consumer.Sets.{keys, contains-keep, nothing_contained}
use agentic_resident_crm.Utils.Consumer.Tracker.{
  Tracker, offsets, still_running, committable, retired, with_commit, take_from, take_committable,
}
use agentic_resident_crm.Utils.Consumer.Offsets.{contains-put-minus}
use agentic_resident_crm.Utils.Consumer.Floor.{
  safe_below-completed, safe_below-running, safe_below-safe,
}
use agentic_resident_crm.Utils.Consumer.State.{Consumer, commit_ready_offsets}

nothing_if_absent : (xs : List ℕ) → ((x : ℕ) → contains xs x ≡ true → true ≡ false) → xs ≡ []
nothing_if_absent xs h = nothing_contained xs (λ x. ground (arith, h x))

module _ {Tp : Type 0} ⦃eq : Eq Tp⦄ where
  contains-still_running :
      (a : Tp) (t : Tracker Tp) (r : ℕ)
      → contains (still_running a t) r
        ≡ (contains (offsets a t.dispatched) r && not (contains (offsets a t.completed) r))
  contains-still_running a t r =
      contains-keep (λ x. not (contains (offsets a t.completed) x)) (offsets a t.dispatched) r

  -- A retirement makes nothing committable, and its own partition has nothing left.
  committable-retired :
      (k a : Tp) (t : Tracker Tp) (x : ℕ) (os : List ℕ)
      → committable k t ≡ os
      → contains (committable a (retired k os t)) x ≡ true
      → (contains (committable a t) x ≡ true) × ((k == a && contains os x) ≡ false)
  unfolding retired
  committable-retired k a t x [] e h = (h, ground arith)
  committable-retired k a t x (o ∷ os) e h =
      (below, ground (arith, kept, contains-put-minus k a (o ∷ os) x t.completed))
    where
      after : Tracker Tp
      after = retired k (o ∷ os) t

      kept : contains (offsets a after.completed) x ≡ true
      kept = safe_below-completed (still_running a after) (offsets a after.completed) x h

      own :
          (r : ℕ)
          → (k == a) ≡ true
          → contains (o ∷ os) r ≡ true
          → contains (offsets a t.completed) r ≡ true
      own r same inside =
          sym (ap (λ j. contains (offsets j t.completed) r) ((eq.same_iff k a).0 same))
          ∙ safe_below-completed (still_running k t) (offsets k t.completed) r
              (ap (λ xs. contains xs r) e ∙ inside)

      runs :
          (r : ℕ)
          → contains (still_running a t) r ≡ true
          → contains (still_running a after) r ≡ true
      runs r running = ground (
        arith,
        running,
        contains-still_running a t r,
        contains-still_running a after r,
        contains-put-minus k a (o ∷ os) r t.dispatched,
        contains-put-minus k a (o ∷ os) r t.completed,
        own r,
      )

      below : contains (committable a t) x ≡ true
      below =
          safe_below-safe (still_running a t) (offsets a t.completed) x
            (ground (arith, kept, contains-put-minus k a (o ∷ os) x t.completed))
            (λ r running.
              safe_below-running (still_running a after) (offsets a after.completed) x r h
                (runs r running))

  -- A partition with nothing committable keeps nothing committable, and one that was drained has
  -- nothing left.
  committable-still :
      (k a : Tp) (t : Tracker Tp)
      → committable a t ≡ []
      → committable a (retired k (committable k t) t) ≡ []
  committable-still k a t none_left = nothing_if_absent _ (λ x h.
      sym (committable-retired k a t x (committable k t) refl h).0
      ∙ ap (λ xs. contains xs x) none_left)

  committable-own : (a : Tp) (t : Tracker Tp) → committable a (retired a (committable a t) t) ≡ []
  committable-own a t = nothing_if_absent _ (λ x h.
      let found = committable-retired a a t x (committable a t) refl h in
      ground (arith, found, eq.same_iff a a))

  with_commit-left :
      (tp : Tp) (os : List ℕ) (rest : List (Tp × ℕ) × Tracker Tp)
      → (with_commit tp os rest).1 ≡ rest.1
  with_commit-left tp [] rest = refl
  with_commit-left tp (o ∷ os) rest = refl

  take_from-still :
      (tps : List Tp) (a : Tp) (t : Tracker Tp)
      → committable a t ≡ []
      → committable a (take_from tps t).1 ≡ []
  unfolding take_from
  take_from-still [] a t h = h
  take_from-still (k ∷ tps) a t h =
      ap (committable a) (with_commit-left k (committable k t) _)
      ∙ take_from-still tps a (retired k (committable k t) t) (committable-still k a t h)

  take_from-drained :
      (tps : List Tp) (a : Tp) (t : Tracker Tp)
      → contains tps a ≡ true
      → committable a (take_from tps t).1 ≡ []
  unfolding take_from
  take_from-drained [] a t h = ground arith
  take_from-drained (k ∷ tps) a t h =
      ap (committable a) (with_commit-left k (committable k t) _) ∙ elim (Bool-cases (k == a)) [
        | inl same ↦ take_from-still tps a (retired k (committable k t) t) (
            subst (λ j. committable a (retired j (committable j t) t) ≡ [])
              (sym ((eq.same_iff k a).0 same)) (committable-own a t))
        | inr other ↦ take_from-drained tps a (retired k (committable k t) t) (ground arith)
      ]

  take_from-nothing :
      (tps : List Tp) (t : Tracker Tp)
      → ((a : Tp) → committable a t ≡ [])
      → (take_from tps t).0 ≡ []
  unfolding take_from retired
  take_from-nothing [] t h = refl
  take_from-nothing (k ∷ tps) t h = rw (h k) (take_from-nothing tps t h)

  offsets-absent :
      (a : Tp) (sets : List (Tp × List ℕ)) → contains (keys sets) a ≡ false → offsets a sets ≡ []
  offsets-absent a [] h = refl
  offsets-absent a ((k, os) ∷ rest) h = ground (arith, offsets-absent a rest)

  pub committable-absent :
      (a : Tp) (t : Tracker Tp) → contains (keys t.completed) a ≡ false → committable a t ≡ []
  committable-absent a t absent = nothing_if_absent _ (λ x h. ground (
    arith,
    safe_below-completed (still_running a t) (offsets a t.completed) x h,
    ap (λ os. contains os x) (offsets-absent a t.completed absent),
  ))

  take_committable-all : (a : Tp) (t : Tracker Tp) → committable a (take_committable t).1 ≡ []
  unfolding take_committable
  take_committable-all a t = elim (Bool-cases (contains (keys t.completed) a)) [
    | inl tracked ↦ take_from-drained (keys t.completed) a t tracked
    | inr absent ↦ take_from-still (keys t.completed) a t (committable-absent a t absent)
  ]

  -- A drain leaves nothing to offer: taken again at once, no position is there to commit.
  pub take_committable-spent : (t : Tracker Tp) → (take_committable (take_committable t).1).0 ≡ []
  unfolding take_committable
  take_committable-spent t =
      take_from-nothing _ (take_committable t).1 (λ a. take_committable-all a t)

module _ {Tp Msg Body : Type 0} ⦃eq : Eq Tp⦄ where
  -- A commit that the broker refuses is not tried again by the next drain: whatever that one is
  -- answered, what the broker has stays as it was, until more messages complete.
  pub commit_ready_offsets-refused :
      (ok : Bool) (c : Consumer Tp Msg Body)
      → (commit_ready_offsets ok (commit_ready_offsets false c)).committed ≡ c.committed
  unfolding commit_ready_offsets
  commit_ready_offsets-refused true c = rw (take_committable-spent c.tracker) refl
  commit_ready_offsets-refused false c = refl
