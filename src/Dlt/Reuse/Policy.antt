-- ===== src/Dlt/Reuse/Policy.antt =====
-- When a cached recommendation is served (src/dlt/reuse.py).
use agentic_resident_crm.Prelude.{
  Bool, true, false, List, [], ◌∷◌, Option, none, some, any, All, ◌≡◌, ◌≢◌, ◌↔◌, ◌⊎◌, inl, inr,
  refl, ap, Bool-cases, arith,
}
use mathlib.Core.Option.{some-injective}
use agentic_resident_crm.Dlt.Findings.{
  FailureClass, business, Verdict, corroborated, partial, contradicted, unverifiable, Label,
  contradicted_label, truthy, is_discrepancy,
}
use agentic_resident_crm.Dlt.Reuse.{
  reuse_group, Cached, structured, unstructured, GroupState, Group, is_contradicted, is_discrepant,
  marked, describes_one_occurrence, is_cached, is_served, has_usable_recommendation, decide,
}

-- A finding that carries no mark of one occurrence's discrepancy.
abbrev pub IsUnmarked : Cached → Type 0
IsUnmarked unstructured = Unit
IsUnmarked (structured discrepancy ceilings) =
    (truthy discrepancy ≡ false) × All (λ l. l ≢ contradicted_label) ceilings

abbrev pub IsOnFile : Option Cached → Type 0
IsOnFile none = ⊥
IsOnFile (some cached) = IsUnmarked cached

abbrev pub IsPublished : GroupState → Type 0
IsPublished s = (s ≡ GroupState.draft) ⊎ (s ≡ GroupState.final)

-- A group with a finding on file, published as a draft or as final, that was not stored of a
-- discrepancy and has no mark of one.
abbrev pub IsUsable : Option Group → Type 0
IsUsable none = ⊥
IsUsable (some g) =
    IsOnFile g.recommendation
    × IsPublished g.recommendation_state
    × (g.recommendation_corroboration ≢ some partial)
    × (g.recommendation_corroboration ≢ some contradicted)

is_contradicted-label : (l : Label) → is_contradicted l ≡ false → l ≢ contradicted_label
is_contradicted-label l h e = cc (h, rw e at h)

label-is_contradicted : (l : Label) → l ≢ contradicted_label → is_contradicted l ≡ false
label-is_contradicted l h = elim (Bool-cases (is_contradicted l)) [
  | inl labelled ↦ elim (h (only l labelled)) [ ]
  | inr not_it ↦ not_it
]
  where
    only : (l : Label) → is_contradicted l ≡ true → l ≡ contradicted_label
    only contradicted_label e = refl
    only _ e = cc

any-is_contradicted :
    (ls : List Label) → (any is_contradicted ls ≡ false) ↔ All (λ l. l ≢ contradicted_label) ls
any-is_contradicted [] = (λ h. tt, λ h. refl)
any-is_contradicted (l ∷ ls) = (
  λ h.
      (is_contradicted-label l (ground (arith, h)), (any-is_contradicted ls).0 (ground (arith, h))),
  λ h. ground (arith, label-is_contradicted l h.0, (any-is_contradicted ls).1 h.1),
)

marked-IsOnFile : (r : Option Cached) → ((is_cached r ≡ true) × (marked r ≡ false)) ↔ IsOnFile r
marked-IsOnFile none = (λ h. cc, λ h. elim h [ ])
marked-IsOnFile (some unstructured) = (λ h. tt, λ h. (refl, refl))
marked-IsOnFile (some (structured d ls)) = (
  λ h. (ground (arith, h), (any-is_contradicted ls).0 (ground (arith, h))),
  λ h. (refl, ground (arith, h.0, (any-is_contradicted ls).1 h.1)),
)

is_served-IsPublished : (s : GroupState) → (is_served s ≡ true) ↔ IsPublished s
is_served-IsPublished GroupState.draft = (λ h. inl refl, λ h. refl)
is_served-IsPublished GroupState.final = (λ h. inr refl, λ h. refl)
is_served-IsPublished GroupState.no_state = ground arith
is_served-IsPublished GroupState.unpersisted = ground arith
is_served-IsPublished GroupState.withheld = ground arith
is_served-IsPublished GroupState.per_occurrence = ground arith

is_discrepancy_iff :
    (v : Verdict) → (is_discrepancy v ≡ false) ↔ ((v ≢ partial) × (v ≢ contradicted))
is_discrepancy_iff corroborated = (λ h. (λ e. cc, λ e. cc), λ h. refl)
is_discrepancy_iff partial = (λ h. cc, λ h. elim (h.0 refl) [ ])
is_discrepancy_iff contradicted = (λ h. cc, λ h. elim (h.1 refl) [ ])
is_discrepancy_iff unverifiable = (λ h. (λ e. cc, λ e. cc), λ h. refl)

is_discrepant_iff :
    (c : Option Verdict)
    → (is_discrepant c ≡ false) ↔ ((c ≢ some partial) × (c ≢ some contradicted))
is_discrepant_iff none = (λ h. (λ e. cc, λ e. cc), λ h. refl)
is_discrepant_iff (some v) = (
  λ h.
      let (p, q) = (is_discrepancy_iff v).0 h in
      (λ e. p (some-injective _ _ e), λ e. q (some-injective _ _ e)),
  λ h. (is_discrepancy_iff v).1 (λ e. h.0 (ap some e), λ e. h.1 (ap some e)),
)

has_usable_recommendation-IsUsable :
    (group : Option Group) → (has_usable_recommendation group ≡ true) ↔ IsUsable group
unfolding has_usable_recommendation describes_one_occurrence
has_usable_recommendation-IsUsable none = (λ h. cc, λ h. elim h [ ])
has_usable_recommendation-IsUsable (some g) =
    let file = marked-IsOnFile g.recommendation in
    let served = is_served-IsPublished g.recommendation_state in
    let agrees = is_discrepant_iff g.recommendation_corroboration in
    (
      λ h. (
        file.0 (ground (arith, h), ground (arith, h)),
        served.0 (ground (arith, h)),
        (agrees.0 (ground (arith, h))).0,
        (agrees.0 (ground (arith, h))).1,
      ),
      λ h. let (f, s, a, b) = h in ground (arith, file.1 f, served.1 s, agrees.1 (a, b)),
    )

decide_usable :
    (reuse_enabled : Bool) (k : FailureClass) (v : Verdict) (group : Option Group)
    → ((decide reuse_enabled k v group).decision ≡ reuse_group) ↔ (
        (k ≡ business)
        × (is_discrepancy v ≡ false)
        × (reuse_enabled ≡ true)
        × (has_usable_recommendation group ≡ true))
unfolding decide
decide_usable reuse_enabled k v group = ground arith

-- A cached recommendation is served just where reuse is on, the failure is a business one, the
-- logs do not contradict the trace or match it only in part, and the group has a finding on file,
-- as a draft or as final, that was neither stored of such a discrepancy nor carries its marks: a
-- text of it, or the label of a contradicted trace.
pub reuse_iff :
    (reuse_enabled : Bool) (k : FailureClass) (v : Verdict) (group : Option Group)
    → ((decide reuse_enabled k v group).decision ≡ reuse_group) ↔ (
        (k ≡ business)
        × ((v ≢ partial) × (v ≢ contradicted))
        × (reuse_enabled ≡ true)
        × IsUsable group)
reuse_iff reuse_enabled k v group =
    let guards = decide_usable reuse_enabled k v group in
    let agrees = is_discrepancy_iff v in
    let usable = has_usable_recommendation-IsUsable group in
    (
      λ h.
          let (class, agreed, on, found) = guards.0 h in
          (class, agrees.0 agreed, on, usable.0 found),
      λ h.
          let (class, agreed, on, found) = h in
          guards.1 (class, agrees.1 agreed, on, usable.1 found),
    )

-- A message waits for the answer of another that is investigated at the same time only where that
-- answer would be served: were there a usable recommendation, this message would reuse it.
pub awaits_cache-reuses :
    (reuse_enabled : Bool) (k : FailureClass) (v : Verdict) (before after : Option Group)
    → (decide reuse_enabled k v before).awaits_cache ≡ true
    → has_usable_recommendation after ≡ true
    → (decide reuse_enabled k v after).decision ≡ reuse_group
unfolding decide
awaits_cache-reuses reuse_enabled k v before after waits usable = ground arith
