-- ===== src/Dlt/Versions/Compare.antt =====
-- `_pad`, `compare`, `at_least`, `is_ahead` and `lowest` of src/dlt/versions.py.
use agentic_resident_crm.Prelude.{
  ℕ, ◌-◌, max, Bool, true, false, List, [], ◌∷◌, ◌++◌, ◌==◌, nat_eq, if◌then◌else◌, Text, ltb, ◌&&◌,
  Option, none, some, length, replicate,
}
use agentic_resident_crm.Dlt.Versions.Parse.{Version, parse}

-- -1, 0 and 1.
pub data Sign : Type 0 where
  less equal greater : Sign

-- What a caller passes: None, a text, or a version parsed before.
pub data Operand : Type 0 where
  absent : Operand
  text : Text → Operand
  version : Version → Operand

unfoldable pub pad : List ℕ → List ℕ → List ℕ × List ℕ
pad a b =
    let width = max (length a) (length b) in
    (a ++ replicate (width - length a) 0, b ++ replicate (width - length b) 0)

-- `!=` and `<` of Python's tuples.
abbrev pub same_tuple : List ℕ → List ℕ → Bool
same_tuple [] [] = true
same_tuple [] (y ∷ ys) = false
same_tuple (x ∷ xs) [] = false
same_tuple (x ∷ xs) (y ∷ ys) = (x == y) && same_tuple xs ys

abbrev pub tuple_lt : List ℕ → List ℕ → Bool
tuple_lt [] [] = false
tuple_lt [] (y ∷ ys) = true
tuple_lt (x ∷ xs) [] = false
tuple_lt (x ∷ xs) (y ∷ ys) = let rest = tuple_lt xs ys in if x == y then rest else ltb x y

-- Build counters order only against each other.
unfoldable pub compare_builds : Option ℕ → Option ℕ → Sign
compare_builds none b = equal
compare_builds (some m) none = equal
compare_builds (some m) (some n) = if m == n then equal else if ltb m n then less else greater

-- A snapshot precedes the release of the same core.
unfoldable pub compare_snapshots : Bool → Bool → Sign → Sign
compare_snapshots true false rest = less
compare_snapshots false true rest = greater
compare_snapshots _ _ rest = rest

unfoldable pub compare_cores : List ℕ → List ℕ → Sign → Sign
unfolding pad
compare_cores a b rest =
    let (left, right) = pad a b in
    if same_tuple left right then rest else if tuple_lt left right then less else greater

unfoldable pub compare_versions : Version → Version → Sign
unfolding compare_cores compare_snapshots compare_builds
compare_versions a b =
    compare_cores a.core b.core
      (compare_snapshots a.snapshot b.snapshot (compare_builds a.build b.build))

abbrev pub map₂ : {A B C : Type 0} → (A → B → C) → Option A → Option B → Option C
map₂ f (some a) (some b) = some (f a b)
map₂ f none b = none
map₂ f (some a) none = none

abbrev pub to_bool : (Sign → Bool) → Option Sign → Option Bool
to_bool test none = none
to_bool test (some s) = some (test s)

-- `result >= 0` and `result > 0`.
abbrev pub not_less : Sign → Bool
not_less less = false
not_less _ = true

abbrev pub is_greater : Sign → Bool
is_greater greater = true
is_greater _ = false

abbrev pub is_less : Sign → Bool
is_less less = true
is_less _ = false

-- The loop over `parsed[1:]`.
unfoldable pub lowest_from : Version → List Version → Version
unfolding compare_versions
lowest_from winner [] = winner
lowest_from winner (v ∷ vs) =
    lowest_from (if is_less (compare_versions v winner) then v else winner) vs

-- `winner = parsed[0]` and the loop.
abbrev pub winner_of : List Version → Option Version
winner_of [] = none
winner_of (v ∷ vs) = some (lowest_from v vs)

abbrev pub winner_of_read : Option (List Version) → Option Version
winner_of_read none = none
winner_of_read (some vs) = winner_of vs

module _ (custom : Text → Option Text) where
  -- `x if isinstance(x, Version) else parse(x)`
  unfoldable pub resolve : Operand → Option Version
  unfolding parse
  resolve absent = none
  resolve (text t) = parse custom (some t)
  resolve (version v) = some v

  unfoldable pub compare : Operand → Operand → Option Sign
  unfolding resolve compare_versions
  compare left right = map₂ compare_versions (resolve left) (resolve right)

  unfoldable pub at_least : Operand → Operand → Option Bool
  unfolding compare
  at_least candidate required = to_bool not_less (compare candidate required)

  unfoldable pub is_ahead : Operand → Operand → Option Bool
  unfolding compare
  is_ahead candidate baseline = to_bool is_greater (compare candidate baseline)

  -- The loop that parses every value, and gives up at the first that cannot be.
  unfoldable pub resolve_all : List Operand → Option (List Version)
  unfolding resolve
  resolve_all [] = some []
  resolve_all (x ∷ xs) = map₂ ◌∷◌ (resolve x) (resolve_all xs)

  unfoldable pub lowest : List Operand → Option Version
  unfolding resolve_all lowest_from
  lowest xs = winner_of_read (resolve_all xs)
