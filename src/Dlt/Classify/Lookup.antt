-- ===== src/Dlt/Classify/Lookup.antt =====
-- The lookup of src/dlt/classify.py takes the longest prefix.
use mathlib.Core.List.{Memᴰ}
use agentic_resident_crm.Prelude.{
  All-keep, keep, ℕ, ◌≤◌, true, false, ◌&&◌, Text, List, [], ◌∷◌, Option, none, some, length,
  starts_with, ◌==◌, text_eq, text_beq_iff, ◌≡◌, ◌⊎◌, inl, inr, refl, arith, All, Bool-cases,
  Option-cases, subst,
}
use agentic_resident_crm.Dlt.Findings.{FailureClass}
use agentic_resident_crm.Dlt.Classify.Table.{
  exact_class, longer_than, best_prefix, value_of, lookup_class,
}

abbrev Entry : Type 0
Entry = Text × FailureClass

-- A prefix of a text is no longer than the text.
starts_with-length : (t p : Text) → starts_with t p ≡ true → length p ≤ length t
starts_with-length t [] h = omega arith
starts_with-length [] (p ∷ ps) h = cc
starts_with-length (c ∷ cs) (p ∷ ps) h = omega (arith, starts_with-length cs ps (ground arith))

starts_with_refl : (t : Text) → starts_with t t ≡ true
starts_with_refl [] = refl
starts_with_refl (c ∷ t) = ground (arith, starts_with_refl t)

-- The entry of a table that holds `value` under `prefix` is the most specific for `fqcn`.
pub record IsLongest (mapping : List Entry) (fqcn : Text) (value : FailureClass) : Type 0 where
  pub prefix : Text
  pub listed : Memᴰ (prefix, value) mapping
  pub fits : starts_with fqcn prefix ≡ true
  pub longest :
      All
        (λ (e : Entry). length e.0 ≤ length prefix)
        (keep (λ (e : Entry). starts_with fqcn e.0) mapping)

exact_class-mem :
    (fqcn : Text) (mapping : List Entry) (value : FailureClass)
    → exact_class fqcn mapping ≡ some value
    → Memᴰ (fqcn, value) mapping
unfolding exact_class
exact_class-mem fqcn [] value h = cc
exact_class-mem fqcn ((p, v) ∷ rest) value h = elim (Bool-cases (p == fqcn)) [
  | inl same ↦ Memᴰ.head (cc ((text_beq_iff p fqcn).0 same, rw same at h))
  | inr other ↦ Memᴰ.tail (exact_class-mem fqcn rest value (rw other at h))
]

All-shorter :
    (fqcn : Text) (mapping : List Entry)
    → All (λ (e : Entry). starts_with fqcn e.0 ≡ true → length e.0 ≤ length fqcn) mapping
All-shorter fqcn [] = tt
All-shorter fqcn ((p, v) ∷ rest) = (starts_with-length fqcn p, All-shorter fqcn rest)

-- The best entry so far is no longer than `n`.
abbrev AtMost : Option Entry → ℕ → Type 0
AtMost none n = Unit
AtMost (some (q, w)) n = length q ≤ n

record Best (mapping : List Entry) (fqcn : Text) (best : Option Entry) (p : Text) (v : FailureClass)
    : Type 0 where
  origin : (best ≡ some (p, v)) ⊎ (Memᴰ (p, v) mapping × (starts_with fqcn p ≡ true))
  kept : AtMost best (length p)
  longest : All (λ (e : Entry). starts_with fqcn e.0 ≡ true → length e.0 ≤ length p) mapping

best_prefix-Best :
    (fqcn : Text) (mapping : List Entry) (best : Option Entry) (p : Text) (v : FailureClass)
    → best_prefix fqcn best mapping ≡ some (p, v)
    → Best mapping fqcn best p v
unfolding best_prefix
best_prefix-Best fqcn [] best p v h = record {
  origin = inl h;
  kept = rw h (omega arith);
  longest = tt;
}
best_prefix-Best fqcn ((q, w) ∷ rest) best p v h =
    elim (Bool-cases (starts_with fqcn q && longer_than q best)) [
      | inl taken ↦
          let b = best_prefix-Best fqcn rest (some (q, w)) p v (rw taken at h) in
          record {
            origin = inr (took b.origin taken);
            kept = bound best taken b.kept;
            longest = (λ _. b.kept, b.longest);
          }
      | inr passed ↦
          let b = best_prefix-Best fqcn rest best p v (rw passed at h) in
          record {
            origin = skip b.origin;
            kept = b.kept;
            longest = (λ f. over best passed f b.kept, b.longest);
          }
    ]
  where
    took :
        (◌≡◌ {A = Option Entry} (some (q, w)) (some (p, v)))
          ⊎ (Memᴰ (p, v) rest × (starts_with fqcn p ≡ true))
        → (starts_with fqcn q && longer_than q best) ≡ true
        → Memᴰ (p, v) ((q, w) ∷ rest) × (starts_with fqcn p ≡ true)
    took (inl e) taken = let same : q ≡ p = cc in (Memᴰ.head (cc), rw (← same) (ground arith))
    took (inr (m, f)) taken = (Memᴰ.tail m, f)

    skip :
        (best ≡ some (p, v)) ⊎ (Memᴰ (p, v) rest × (starts_with fqcn p ≡ true))
        → (best ≡ some (p, v)) ⊎ (Memᴰ (p, v) ((q, w) ∷ rest) × (starts_with fqcn p ≡ true))
    skip (inl e) = inl e
    skip (inr (m, f)) = inr (Memᴰ.tail m, f)

    bound :
        (b : Option Entry)
        → (starts_with fqcn q && longer_than q b) ≡ true
        → length q ≤ length p
        → AtMost b (length p)
    bound none taken le = tt
    bound (some (r, x)) taken le = ground arith

    over :
        (b : Option Entry)
        → (starts_with fqcn q && longer_than q b) ≡ false
        → starts_with fqcn q ≡ true
        → AtMost b (length p)
        → length q ≤ length p
    over none passed f le = cc (rw f at passed)
    over (some (r, x)) passed f le = ground arith

-- The class that the table gives a name is that of an entry that is a prefix of the name, and no
-- entry that is a prefix of it is longer: a specific entry beats a general one, whatever their
-- order.
pub lookup_class-IsLongest :
    (mapping : List Entry) (fqcn : Text) (value : FailureClass)
    → lookup_class mapping fqcn ≡ some value
    → IsLongest mapping fqcn value
unfolding lookup_class
lookup_class-IsLongest mapping fqcn value h = elim (Option-cases (exact_class fqcn mapping)) [
  | inl inexact ↦ by_prefix (best_prefix fqcn none mapping) refl (rw (inexact, lookup_class) at h)
  | inr (v, exact) ↦
      let same : v ≡ value = cc (rw (exact, lookup_class) at h) in
      record {
        prefix = fqcn;
        listed = exact_class-mem fqcn mapping value (rw same at exact);
        fits = starts_with_refl fqcn;
        longest =
            All-keep _ (λ (e : Entry). starts_with fqcn e.0) mapping (All-shorter fqcn mapping);
      }
]
  where
    by_prefix :
        (o : Option Entry)
        → best_prefix fqcn none mapping ≡ o
        → value_of o ≡ some value
        → IsLongest mapping fqcn value
    by_prefix none e k = cc
    by_prefix (some (p, v)) e k =
        let same : v ≡ value = cc in
        let b = best_prefix-Best fqcn mapping none p v e in
        record {
          prefix = p;
          listed = subst (λ u. Memᴰ (p, u) mapping) same (found b.origin).0;
          fits = (found b.origin).1;
          longest = All-keep _ (λ (e : Entry). starts_with fqcn e.0) mapping b.longest;
        }
      where
        found :
            (◌≡◌ {A = Option Entry} none (some (p, v)))
              ⊎ (Memᴰ (p, v) mapping × (starts_with fqcn p ≡ true))
            → Memᴰ (p, v) mapping × (starts_with fqcn p ≡ true)
        found (inl e) = cc
        found (inr m) = m
