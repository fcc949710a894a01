-- ===== src/Dlt/Versions/Lowest.antt =====
-- `lowest` of src/dlt/versions.py, the reading of a deploy that is rolling out.
use mathlib.Core.List.{Memᴰ}
use agentic_resident_crm.Prelude.{
  true, false, List, [], ◌∷◌, ◌++◌, if◌then◌else◌, Option, none, some, ◌≡◌, ◌≢◌, refl, subst, arith,
  Text, All, Bool-cases, inl, inr, Option-cases,
}
use agentic_resident_crm.Dlt.Versions.Parse.{Version}
use agentic_resident_crm.Dlt.Versions.Compare.{
  Sign, less, is_less, Operand, compare_versions, lowest_from, resolve, resolve_all, lowest,
  winner_of,
}
use agentic_resident_crm.Dlt.Versions.Order.{compare_versions-less_trans, compare_versions_irrefl}

not_below-step :
    (v w x : Version)
    → compare_versions v w ≢ less
    → compare_versions v (if is_less (compare_versions x w) then x else w) ≢ less
not_below-step v w x h e = elim (Bool-cases (is_less (compare_versions x w))) [
  | inl below ↦ h (compare_versions-less_trans v x w (rw below at e) (is_less→less _ below))
  | inr other ↦ h (rw other at e)
]
  where
    is_less→less : (s : Sign) → is_less s ≡ true → s ≡ less
    is_less→less s q = ground arith

lowest_from-keeps :
    (v w : Version) (vs : List Version)
    → compare_versions v w ≢ less
    → compare_versions v (lowest_from w vs) ≢ less
unfolding lowest_from
lowest_from-keeps v w [] h = h
lowest_from-keeps v w (x ∷ xs) h =
    lowest_from-keeps v (if is_less (compare_versions x w) then x else w) xs
      (not_below-step v w x h)

step_not_below :
    (w x : Version) → compare_versions x (if is_less (compare_versions x w) then x else w) ≢ less
step_not_below w x = elim (Bool-cases (is_less (compare_versions x w))) [
  | inl below ↦ rw below (compare_versions_irrefl x)
  | inr other ↦ rw other (λ e. not_less_sign _ other e)
]
  where
    not_less_sign : (s : Sign) → is_less s ≡ false → s ≡ less → ⊥
    not_less_sign s q r = ground arith

lowest_from-All :
    (w : Version) (vs : List Version) → All (λ v. compare_versions v (lowest_from w vs) ≢ less) vs
unfolding lowest_from
lowest_from-All w [] = tt
lowest_from-All w (x ∷ xs) = (
  lowest_from-keeps x (if is_less (compare_versions x w) then x else w) xs (step_not_below w x),
  lowest_from-All (if is_less (compare_versions x w) then x else w) xs,
)

lowest_from-mem : (w : Version) (vs : List Version) → Memᴰ (lowest_from w vs) (w ∷ vs)
unfolding lowest_from
lowest_from-mem w [] = Memᴰ.head refl
lowest_from-mem w (x ∷ xs) = elim (Bool-cases (is_less (compare_versions x w))) [
  | inl below ↦ rw below (Memᴰ.tail (lowest_from-mem x xs))
  | inr other ↦ rw other (keep (lowest_from-mem w xs))
]
  where
    keep : {u : Version} → Memᴰ u (w ∷ xs) → Memᴰ u (w ∷ x ∷ xs)
    keep (Memᴰ.head e) = Memᴰ.head e
    keep (Memᴰ.tail m) = Memᴰ.tail (Memᴰ.tail m)

module _ (custom : Text → Option Text) where
  -- What `lowest` returns of a list of readings.
  pub record IsLowest (xs : List Operand) (w : Version) : Type 0 where
    pub parsed : List Version
    pub all_parsed : resolve_all custom xs ≡ some parsed
    pub member : Memᴰ w parsed
    pub minimal : All (λ v. compare_versions v w ≢ less) parsed

  winner_of-IsLowest :
      (xs : List Operand) (vs : List Version) (w : Version)
      → resolve_all custom xs ≡ some vs
      → winner_of vs ≡ some w
      → IsLowest xs w
  winner_of-IsLowest xs [] w e h = cc
  winner_of-IsLowest xs (v ∷ vs) w e h =
      let same : lowest_from v vs ≡ w = cc in
      record {
        parsed = v ∷ vs;
        all_parsed = e;
        member = rw (← same) (lowest_from-mem v vs);
        minimal =
            subst (λ u. All (λ x. compare_versions x u ≢ less) (v ∷ vs)) same
              (lowest_from-keeps v v vs (compare_versions_irrefl v), lowest_from-All v vs);
      }

  -- The version that `lowest` returns is one of those read, every reading was parsed, and none
  -- of them is below it.
  pub lowest-IsLowest :
      (xs : List Operand) (w : Version) → lowest custom xs ≡ some w → IsLowest xs w
  unfolding lowest
  lowest-IsLowest xs w h = elim (Option-cases (resolve_all custom xs)) [
    | inl unread ↦ cc (rw (unread, lowest) at h)
    | inr (vs, e) ↦ winner_of-IsLowest xs vs w e (rw (e, lowest) at h)
  ]

  -- One reading that cannot be parsed leaves no lowest version, wherever it stands.
  pub lowest-unreadable :
      (xs ys : List Operand) (x : Operand)
      → resolve custom x ≡ none
      → lowest custom (xs ++ x ∷ ys) ≡ none
  unfolding lowest
  lowest-unreadable xs ys x h = rw (poisoned xs, lowest)
    where
      poisoned : (zs : List Operand) → resolve_all custom (zs ++ x ∷ ys) ≡ none
      poisoned [] = rw h
      poisoned (z ∷ zs) = rw (poisoned zs) (ground arith)
