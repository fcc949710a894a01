-- ===== src/Utils/Consumer/Offsets.antt =====
-- The sets of offsets that the methods of `OffsetTracker` leave (src/utils/kafkaConsumer.py).
use agentic_resident_crm.Prelude.{
  ℕ, Bool, true, false, not, ◌&&◌, ◌||◌, List, [], ◌∷◌, Option, none, some, if◌then◌else◌, sym, Eq,
  ◌==◌, nat_eq, contains, ◌≡◌, refl, ap, ◌∙◌, arith, inl, inr, Bool-cases,
}
use agentic_resident_crm.Utils.Consumer.Sets.{
  add, discard, minus, find, put, remove, find-put, find-remove, contains-keep, contains-add,
}
use agentic_resident_crm.Utils.Consumer.Tracker.{Tracker, offsets, discard_at, forget}

and_true : (b : Bool) → b ≡ (b && true)
and_true true = refl
and_true false = refl

module _ {Tp : Type 0} ⦃eq : Eq Tp⦄ where
  pub offsets-put :
      (tp asked : Tp) (os : List ℕ) (sets : List (Tp × List ℕ))
      → offsets asked (put tp os sets) ≡ (if tp == asked then os else offsets asked sets)
  offsets-put tp asked os sets = ground (arith, find-put tp asked os sets)

  offsets-remove :
      (tp asked : Tp) (sets : List (Tp × List ℕ))
      → offsets asked (remove tp sets) ≡ (if tp == asked then [] else offsets asked sets)
  offsets-remove tp asked sets = ground (arith, find-remove tp asked sets)

  offsets-discard_at :
      (tp asked : Tp) (o : ℕ) (sets : List (Tp × List ℕ))
      → offsets asked (discard_at tp o (find tp sets) sets)
        ≡ (if tp == asked then discard o (offsets asked sets) else offsets asked sets)
  offsets-discard_at tp asked o sets = by_find (find tp sets) refl
    where
      asked_find :
          (found : Option (List ℕ))
          → find tp sets ≡ found
          → (tp == asked) ≡ true
          → find asked sets ≡ found
      asked_find found e h = ap (λ k. find k sets) (sym ((eq.same_iff tp asked).0 h)) ∙ e

      by_find :
          (found : Option (List ℕ))
          → find tp sets ≡ found
          → offsets asked (discard_at tp o found sets)
            ≡ (if tp == asked then discard o (offsets asked sets) else offsets asked sets)
      by_find none e = elim (Bool-cases (tp == asked)) [
        | inl h ↦ rw h (rw (asked_find none e h) refl)
        | inr h ↦ rw h refl
      ]
      by_find (some os) e = elim (Bool-cases (tp == asked)) [
        | inl h ↦
            rw h
              (offsets-put tp asked (discard o os) sets ∙ rw h (rw (asked_find (some os) e h) refl))
        | inr h ↦ offsets-put tp asked (discard o os) sets ∙ rw h refl
      ]

  offsets_same :
      (tp asked : Tp) (sets : List (Tp × List ℕ))
      → (tp == asked) ≡ true
      → offsets tp sets ≡ offsets asked sets
  offsets_same tp asked sets h = ap (λ k. offsets k sets) ((eq.same_iff tp asked).0 h)

  -- What each change of a set leaves in the sets.
  pub contains-put-add :
      (tp asked : Tp) (o x : ℕ) (sets : List (Tp × List ℕ))
      → contains (offsets asked (put tp (add o (offsets tp sets)) sets)) x
        ≡ ((tp == asked && o == x) || contains (offsets asked sets) x)
  contains-put-add tp asked o x sets =
      ap (λ os. contains os x) (offsets-put tp asked _ sets) ∙ elim (Bool-cases (tp == asked)) [
        | inl h ↦ rw h (rw (offsets_same tp asked sets h) (contains-add o x (offsets asked sets)))
        | inr h ↦ rw h refl
      ]

  pub contains-put-minus :
      (tp asked : Tp) (os : List ℕ) (x : ℕ) (sets : List (Tp × List ℕ))
      → contains (offsets asked (put tp (minus (offsets tp sets) os) sets)) x
        ≡ (contains (offsets asked sets) x && not (tp == asked && contains os x))
  contains-put-minus tp asked os x sets =
      ap (λ os. contains os x) (offsets-put tp asked _ sets) ∙ elim (Bool-cases (tp == asked)) [
        | inl h ↦ rw h (
            rw (offsets_same tp asked sets h)
              (contains-keep (λ y. not (contains os y)) (offsets asked sets) x))
        | inr h ↦ rw h (and_true _)
      ]

  pub contains-discard_at :
      (tp asked : Tp) (o x : ℕ) (sets : List (Tp × List ℕ))
      → contains (offsets asked (discard_at tp o (find tp sets) sets)) x
        ≡ (contains (offsets asked sets) x && not (tp == asked && x == o))
  contains-discard_at tp asked o x sets =
      ap (λ os. contains os x) (offsets-discard_at tp asked o sets)
      ∙ elim (Bool-cases (tp == asked)) [
        | inl h ↦ rw h (contains-keep (λ y. not (y == o)) (offsets asked sets) x)
        | inr h ↦ rw h (and_true _)
      ]

  pub contains-remove :
      (tp asked : Tp) (x : ℕ) (sets : List (Tp × List ℕ))
      → contains (offsets asked (remove tp sets)) x
        ≡ (contains (offsets asked sets) x && not (tp == asked))
  contains-remove tp asked x sets =
      ap (λ os. contains os x) (offsets-remove tp asked sets) ∙ ground arith

  pub forget-dispatched :
      (tps : List Tp) (t : Tracker Tp) (a : Tp) (x : ℕ)
      → contains (offsets a (forget tps t).dispatched) x
        ≡ (contains (offsets a t.dispatched) x && not (contains tps a))
  unfolding forget
  forget-dispatched [] t a x = ground arith
  forget-dispatched (tp ∷ tps) t a x = ground (
    arith,
    forget-dispatched tps
        (record { dispatched = remove tp t.dispatched; completed = remove tp t.completed }) a x,
    contains-remove tp a x t.dispatched,
  )

  pub forget-completed :
      (tps : List Tp) (t : Tracker Tp) (a : Tp) (x : ℕ)
      → contains (offsets a (forget tps t).completed) x
        ≡ (contains (offsets a t.completed) x && not (contains tps a))
  unfolding forget
  forget-completed [] t a x = ground arith
  forget-completed (tp ∷ tps) t a x = ground (
    arith,
    forget-completed tps
        (record { dispatched = remove tp t.dispatched; completed = remove tp t.completed }) a x,
    contains-remove tp a x t.completed,
  )
