-- ===== src/Floats.antt =====
-- Python's floats as the program uses them for confidences: a comparison, a product and the
-- number one. Nothing else is taken of them.
use agentic_resident_crm.Prelude.{Bool, true, false, if◌then◌else◌, ◌≡◌, Bool-cases, inl, inr}

pub record Floats : Type 1 where
  pub Float : Type 0
  pub below : Float → Float → Bool
  pub times : Float → Float → Float
  pub one : Float

-- What `<` does on floats of which none is a NaN.
pub record IsOrdered (floats : Floats) : Type 0 where
  pub asym : (a b : floats.Float) → floats.below a b ≡ true → floats.below b a ≡ false
  pub not_below_trans :
      (a b c : floats.Float)
      → floats.below a b ≡ false
      → floats.below b c ≡ false
      → floats.below a c ≡ false

-- `min(a, b)`
abbrev pub lesser : (floats : Floats) → floats.Float → floats.Float → floats.Float
lesser floats a b = if floats.below b a then b else a

module _ (floats : Floats) (ordered : IsOrdered floats) where
  open floats use {Float, below}

  pub below_irrefl : (a : Float) → below a a ≡ false
  below_irrefl a = elim (Bool-cases (below a a)) [ inl e ↦ ordered.asym a a e | inr e ↦ e ]

  pub lesser_left : (a b : Float) → below a (lesser floats a b) ≡ false
  lesser_left a b = elim (Bool-cases (below b a)) [
    | inl e ↦ rw (e, ordered.asym b a e)
    | inr e ↦ rw (e, below_irrefl a)
  ]

  pub lesser_right : (a b : Float) → below b (lesser floats a b) ≡ false
  lesser_right a b = elim (Bool-cases (below b a)) [
    | inl e ↦ rw (e, below_irrefl b)
    | inr e ↦ rw (e, e)
  ]
