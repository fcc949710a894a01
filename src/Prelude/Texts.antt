-- ===== src/Prelude/Texts.antt =====
-- A text as the list of its code points, where the program walks its characters.
use Prim.Native.Nat.{ℕ}
use Prim.Native.Char.{code}
use Prim.Native.String.{String}
use mathlib.Core.Path.{◌≡◌, refl}
use mathlib.Core.Logic.{◌↔◌}
use mathlib.Core.Bool.{Bool, true, false, ◌&&◌}
use mathlib.Core.List.{List, [], ◌∷◌, ◌++◌, reverse}
use native.Mathlib.Omega.{arith}
use agentic_resident_crm.Prelude.Tests.{nat_beq, Eq, ltb, if◌then◌else◌}

abbrev pub Text : Type 0
Text = List ℕ

-- `String` has its own `[]` and `∷`.
abbrev pub codes : String → Text
codes String.[] = []
codes (String.◌∷◌ c s) = code c ∷ codes s

abbrev pub starts_with : Text → Text → Bool
starts_with t [] = true
starts_with [] (p ∷ ps) = false
starts_with (c ∷ cs) (p ∷ ps) = nat_beq c p && starts_with cs ps

abbrev pub ends_with : Text → Text → Bool
ends_with t s = starts_with (reverse t) (reverse s)

abbrev pub text_beq : Text → Text → Bool
text_beq [] [] = true
text_beq [] (y ∷ ys) = false
text_beq (x ∷ xs) [] = false
text_beq (x ∷ xs) (y ∷ ys) = nat_beq x y && text_beq xs ys

text_beq_refl : (t : Text) → text_beq t t ≡ true
text_beq_refl [] = refl
text_beq_refl (c ∷ t) = ground (arith, text_beq_refl t)

text_beq-eq : (t u : Text) → text_beq t u ≡ true → t ≡ u
text_beq-eq [] [] h = refl
text_beq-eq [] (y ∷ ys) h = cc
text_beq-eq (x ∷ xs) [] h = cc
text_beq-eq (x ∷ xs) (y ∷ ys) h = ground (arith, text_beq-eq xs ys)

pub text_beq_iff : (t u : Text) → (text_beq t u ≡ true) ↔ (t ≡ u)
text_beq_iff t u = (text_beq-eq t u, λ e. rw e (text_beq_refl u))

instance abbrev pub text_eq : Eq Text
text_eq = record { same = text_beq; same_iff = text_beq_iff }

-- A text that starts with another is that one and a rest.
pub starts_with-split : (t p : Text) → starts_with t p ≡ true → (rest : Text) × (t ≡ p ++ rest)
starts_with-split t [] h = (t, refl)
starts_with-split [] (p ∷ ps) h = cc
starts_with-split (c ∷ cs) (p ∷ ps) h =
    let (rest, e) = starts_with-split cs ps (ground arith) in (rest, ground arith)

-- `<` on texts.
abbrev pub text_lt : Text → Text → Bool
text_lt t [] = false
text_lt [] (d ∷ u) = true
text_lt (c ∷ t) (d ∷ u) = let rest = text_lt t u in if nat_beq c d then rest else ltb c d
