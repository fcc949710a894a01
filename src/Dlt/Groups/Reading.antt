-- ===== src/Dlt/Groups/Reading.antt =====
-- The group of a fingerprint, composed from its objects: `load_group` of src/dlt/group_store.py
-- past its cache.
use agentic_resident_crm.Prelude.{
  ℕ, suc, ◌+◌, ◌-◌, Bool, true, false, not, ◌&&◌, ◌||◌, String, List, [], ◌∷◌, ◌++◌, Option, none,
  some, if◌then◌else◌, ltb, ◌==◌, string_eq, is_some, or_else, get_or, length, drop, keep, contains,
  lookup, insert, max, min, nat_eq,
}
use agentic_resident_crm.Dlt.Groups.Records.{
  Occurrence, Check, Finding, Verdict, Legacy, Parts, StoredGroup, no_meta,
}

-- The empty text reads as no text.
abbrev pub truthy : Option String → Option String
truthy none = none
truthy (some s) = if s == "" then none else some s

abbrev pub order_at : Occurrence → ℕ
order_at r = get_or r.at 0

abbrev pub order_seq : Occurrence → ℕ
order_seq r = get_or r.seq 0

-- `_order_key(r) < _order_key(s)`
abbrev pub is_before : Occurrence → Occurrence → Bool
is_before r s =
    ltb (order_at r) (order_at s) || (order_at r == order_at s && ltb (order_seq r) (order_seq s))

abbrev pub insert_sorted :
    String × Occurrence → List (String × Occurrence) → List (String × Occurrence)
insert_sorted r [] = r ∷ []
insert_sorted r (s ∷ rest) =
    let later = insert_sorted r rest in if is_before s.1 r.1 then s ∷ later else r ∷ s ∷ rest

-- A stable sort.
abbrev pub sorted : List (String × Occurrence) → List (String × Occurrence)
sorted [] = []
sorted (r ∷ rest) = insert_sorted r (sorted rest)

abbrev pub listed : List String → Option String → Bool
listed ids none = false
listed ids (some s) = contains ids s

-- The occurrences that the legacy record does not list.
abbrev pub fresh_of : List String → List (String × Occurrence) → List (String × Occurrence)
fresh_of ids records =
    keep (λ r. not (listed ids r.1.case_id || listed ids r.1.ref_id)) (sorted records)

abbrev pub count_in : Option String → List (String × ℕ) → List (String × ℕ)
count_in none history = history
count_in (some v) history = insert v (suc (get_or (lookup v history) 0)) history

abbrev pub counted : List (Option String) → List (String × ℕ) → List (String × ℕ)
counted [] history = history
counted (v ∷ vs) history = counted vs (count_in (truthy v) history)

abbrev pub earlier : Option ℕ → Option ℕ → Option ℕ
earlier none t = t
earlier (some s) none = some s
earlier (some s) (some t) = some (min s t)

abbrev pub later : Option ℕ → Option ℕ → Option ℕ
later none t = t
later (some s) none = some s
later (some s) (some t) = some (max s t)

abbrev pub earliest : List (Option ℕ) → Option ℕ
earliest [] = none
earliest (t ∷ ts) = earlier t (earliest ts)

abbrev pub latest : List (Option ℕ) → Option ℕ
latest [] = none
latest (t ∷ ts) = later t (latest ts)

abbrev pub times_of : List (String × Occurrence) → List (Option ℕ)
times_of [] = []
times_of ((name, r) ∷ rest) = r.at ∷ times_of rest

abbrev pub verdicts_of : List (String × Occurrence) → List (Option String)
verdicts_of [] = []
verdicts_of ((name, r) ∷ rest) = r.corroboration ∷ verdicts_of rest

-- `r.get("case_id") or r["_name"]`
abbrev pub names_of : List (String × Occurrence) → List String
names_of [] = []
names_of ((name, r) ∷ rest) = get_or (truthy r.case_id) name ∷ names_of rest

-- `members[-cap:]`, for a cap above 0.
abbrev pub newest {ℓ} : {A : Type ℓ} → ℕ → List A → List A
newest cap members = drop (length members - cap) members

abbrev pub check_verdicts : List (String × Check) → List (Option String)
check_verdicts [] = []
check_verdicts ((name, c) ∷ rest) = c.verdict ∷ check_verdicts rest

-- The texts among the members that are not empty.
abbrev pub named : List String → List String
named members = keep (λ m. not (m == "")) members

abbrev pub is_null {ℓ} : {A : Type ℓ} → List A → Bool
is_null [] = true
is_null (x ∷ xs) = false

module _ {R C : Type 0} where
  abbrev pub no_legacy : Legacy R C
  no_legacy = record {
    members = [];
    occurrence_count = 0;
    corroboration_history = [];
    code_check_history = [];
    signature = none;
    failure_class = none;
    business_code = none;
    first_seen = none;
    last_seen = none;
    recommendation = none;
    recommendation_state = none;
    code_check = none;
  }

  -- A recommendation of the legacy record stands in where no document is there.
  abbrev pub with_legacy_finding : Option (Finding R) → Legacy R C → Finding R
  with_legacy_finding (some f) legacy = f
  with_legacy_finding none legacy = record {
    recommendation = legacy.recommendation;
    recommendation_state =
        if is_some legacy.recommendation then legacy.recommendation_state else none;
    by_case_id = none;
    corroboration = none;
  }

  abbrev pub with_legacy_check : Option (Verdict C) → Legacy R C → Option C
  with_legacy_check (some v) legacy = v.code_check
  with_legacy_check none legacy = legacy.code_check

  abbrev pub legacy_of : Parts R C → Legacy R C
  legacy_of parts = get_or parts.legacy no_legacy

  abbrev pub fresh_in : Parts R C → List (String × Occurrence)
  fresh_in parts = fresh_of (named (legacy_of parts).members) parts.occurrences

  abbrev pub starts_in : Parts R C → List (Option ℕ)
  starts_in parts =
      (get_or parts.meta no_meta).first_seen
      ∷ (legacy_of parts).first_seen
      ∷ times_of (fresh_in parts)

  abbrev pub ends_in : Parts R C → List (Option ℕ)
  ends_in parts = (legacy_of parts).last_seen ∷ times_of (fresh_in parts)

  abbrev pub has_parts : Parts R C → Bool
  has_parts parts =
      not (is_null parts.occurrences)
      || not (is_null parts.checks)
      || is_some parts.meta
      || is_some parts.finding
      || is_some parts.verdict
      || is_some parts.legacy

  unfoldable pub composed : ℕ → String → Parts R C → StoredGroup R C
  composed cap fingerprint parts =
      let legacy = legacy_of parts in
      let meta = get_or parts.meta no_meta in
      let fresh = fresh_in parts in
      let finding = with_legacy_finding parts.finding legacy in
      record {
        fingerprint = fingerprint;
        signature = get_or (or_else (truthy meta.signature) (truthy legacy.signature)) "";
        failure_class =
            get_or (or_else (truthy meta.failure_class) (truthy legacy.failure_class)) "U";
        business_code = or_else (truthy meta.business_code) legacy.business_code;
        first_seen = earliest (starts_in parts);
        last_seen = or_else (latest (ends_in parts)) (earliest (starts_in parts));
        occurrence_count = legacy.occurrence_count + length fresh;
        members = newest cap (named legacy.members ++ names_of fresh);
        recommendation = finding.recommendation;
        recommendation_state = get_or finding.recommendation_state "none";
        recommendation_by_case_id = finding.by_case_id;
        recommendation_corroboration = finding.corroboration;
        corroboration_history = counted (verdicts_of fresh) legacy.corroboration_history;
        code_check = with_legacy_check parts.verdict legacy;
        code_check_history = counted (check_verdicts parts.checks) legacy.code_check_history;
      }

  unfoldable pub compose : ℕ → String → Parts R C → Option (StoredGroup R C)
  compose cap fingerprint parts =
      if has_parts parts then some (composed cap fingerprint parts) else none
