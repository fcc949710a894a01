-- ===== src/Utils/Consumer/Threads.antt =====
-- What is left to each thread comes when its message is settled (src/utils/kafkaConsumer.py).
use agentic_resident_crm.Prelude.{
  ℕ, zero, suc, Bool, true, false, ◌&&◌, ◌||◌, List, [], ◌∷◌, Option, none, some, All, Eq, ◌==◌,
  nat_eq, ◌≡◌, ap, arith, inl, inr, Bool-cases, if◌then◌else◌,
}
use agentic_resident_crm.Utils.Consumer.Messages.{Effect, first_of, rest_of}
use agentic_resident_crm.Utils.Consumer.State.{Task, at_task, due, advanced}
use agentic_resident_crm.Utils.Consumer.Account.{has, has-first}
use agentic_resident_crm.Utils.Consumer.Justified.{
  settles, allowed, justified, allowed_now, justified-grow,
}

module _ {Tp Body : Type 0} ⦃eq : Eq Tp⦄ where
  -- The completions and abandonments that are left to a thread come when its message is settled.
  abbrev pub IsJustified : List (Tp × ℕ) → Task Tp Body → Type 0
  IsJustified settled task = justified (has settled task.tp task.offset) task.left ≡ true

  abbrev pub IsJustifiedIn : List (Tp × ℕ) → Option (Task Tp Body) → Type 0
  IsJustifiedIn settled none = Unit
  IsJustifiedIn settled (some task) = IsJustified settled task

  -- The settled messages after an effect.
  abbrev pub settled_after : Effect Body → Tp → ℕ → List (Tp × ℕ) → List (Tp × ℕ)
  settled_after e tp o settled = if settles e then (tp, o) ∷ settled else settled

  pub settled_after-grow :
      (e : Effect Body) (tp : Tp) (o : ℕ) (settled : List (Tp × ℕ)) (task : Task Tp Body)
      → IsJustified settled task
      → IsJustified (settled_after e tp o settled) task
  settled_after-grow e tp o settled task h = elim (Bool-cases (settles e)) [
    | inl on ↦ rw on (grown (tp == task.tp && o == task.offset))
    | inr off ↦ rw off h
  ]
    where
      grown : (same : Bool) → justified (same || has settled task.tp task.offset) task.left ≡ true
      grown true = justified-grow task.left (has settled task.tp task.offset) h
      grown false = h

  pub settled_after-own :
      (e : Effect Body) (tp : Tp) (o : ℕ) (settled : List (Tp × ℕ)) (left : List (Effect Body))
      → justified (has settled tp o) (e ∷ left) ≡ true
      → justified (has (settled_after e tp o settled) tp o) left ≡ true
  settled_after-own e tp o settled left h = elim (Bool-cases (settles e)) [
    | inl on ↦ rw on (
        rw (has-first tp o settled)
          (ground (arith, ap (λ b. justified (b || has settled tp o) left) on)))
    | inr off ↦ rw off (ground (arith, ap (λ b. justified (b || has settled tp o) left) off))
  ]

  pub settled_after-All :
      (e : Effect Body) (tp : Tp) (o : ℕ) (settled : List (Tp × ℕ)) (ws : List (Task Tp Body))
      → All (IsJustified settled) ws
      → All (IsJustified (settled_after e tp o settled)) ws
  settled_after-All e tp o settled [] all = tt
  settled_after-All e tp o settled (w ∷ ws) (h, hs) =
      (settled_after-grow e tp o settled w h, settled_after-All e tp o settled ws hs)

  pub settled_after-In :
      (e : Effect Body) (tp : Tp) (o : ℕ) (settled : List (Tp × ℕ)) (task : Option (Task Tp Body))
      → IsJustifiedIn settled task
      → IsJustifiedIn (settled_after e tp o settled) task
  settled_after-In e tp o settled none h = tt
  settled_after-In e tp o settled (some w) h = settled_after-grow e tp o settled w h

  -- The next effect is allowed, and the threads are justified once it is done.
  abbrev pub IsDue : List (Tp × ℕ) → List (Task Tp Body) → Option (Effect Body × (Tp × ℕ)) → Type 0
  IsDue settled ws none = Unit
  IsDue settled ws (some (e, (tp, o))) =
      (allowed e (has settled tp o) ≡ true) × All (IsJustified (settled_after e tp o settled)) ws

  pub due-IsDue :
      (n : ℕ) (settled : List (Tp × ℕ)) (ws : List (Task Tp Body))
      → All (IsJustified settled) ws
      → IsDue settled (advanced n ws) (due n ws)
  due-IsDue n settled [] all = tt
  due-IsDue zero settled (w ∷ ws) (h, hs) = by_left w.left h
    where
      by_left :
          (left : List (Effect Body))
          → justified (has settled w.tp w.offset) left ≡ true
          → IsDue settled (record w { left = rest_of left } ∷ ws) (at_task w (first_of left))
      by_left [] h = tt
      by_left (e ∷ left) h = (
        allowed_now e left (has settled w.tp w.offset) h,
        (
          settled_after-own e w.tp w.offset settled left h,
          settled_after-All e w.tp w.offset settled ws hs,
        ),
      )
  due-IsDue (suc n) settled (w ∷ ws) (h, hs) = due-later (due n ws) (due-IsDue n settled ws hs)
    where
      due-later :
          (d : Option (Effect Body × (Tp × ℕ)))
          → IsDue settled (advanced n ws) d
          → IsDue settled (w ∷ advanced n ws) d
      due-later none all = tt
      due-later (some (e, (tp, o))) (ok, all) = (ok, (settled_after-grow e tp o settled w h, all))
