-- ===== src/Prelude/Dicts.antt =====
-- Dictionaries with text keys as association lists, in the source's insertion order.
use Prim.Native.String.{String}
use mathlib.Core.Path.{◌≡◌, refl}
use mathlib.Core.List.{List, [], ◌∷◌}
use mathlib.Core.Option.{Option, none, some}
use native.Mathlib.Omega.{arith}
use text.Mathlib.TextEquality.{eq_iff}
use agentic_resident_crm.Prelude.Tests.{◌==◌, string_eq, if◌then◌else◌}

module _ {ℓ} {V : Type ℓ} where
  abbrev pub lookup : String → List (String × V) → Option V
  lookup key [] = none
  lookup key ((first, value) ∷ rest) = if first == key then some value else lookup key rest

  -- The pair keeps its place where the key is there, and comes last where it is not.
  abbrev pub insert : String → V → List (String × V) → List (String × V)
  insert key value [] = (key, value) ∷ []
  insert key value ((first, old) ∷ rest) =
      if first == key then (key, value) ∷ rest else (first, old) ∷ insert key value rest

  pub lookup-insert :
      (key asked : String) (value : V) (entries : List (String × V))
      → lookup asked (insert key value entries)
        ≡ (if key == asked then some value else lookup asked entries)
  lookup-insert key asked value [] = refl
  lookup-insert key asked value ((first, old) ∷ rest) = ground (
    arith,
    lookup-insert key asked value rest,
    eq_iff first key,
    eq_iff first asked,
    eq_iff key asked,
  )
