-- ===== src/Dlt/Groups/Bounds.antt =====
-- The counts, the members and the times of a composed group (src/dlt/group_store.py).
use agentic_resident_crm.Prelude.{
  ℕ, zero, suc, ◌+◌, ◌-◌, ◌≤◌, Bool, true, false, ◌||◌, String, List, [], ◌∷◌, Option, none, some,
  ◌==◌, string_eq, or_else, get_or, length, drop, lookup, insert, max, min, nat_eq, ◌≡◌, refl,
  arith, inl, inr, Bool-cases,
}
use agentic_resident_crm.Dlt.Groups.Records.{Occurrence, Parts, no_meta}
use agentic_resident_crm.Dlt.Groups.Reading.{
  truthy, count_in, counted, earlier, later, earliest, latest, times_of, verdicts_of, newest,
  legacy_of, fresh_in, starts_in, ends_in, composed,
}

-- The sum of a histogram.
abbrev pub total : List (String × ℕ) → ℕ
total [] = 0
total ((name, n) ∷ rest) = n + total rest

total-insert :
    (v : String) (n : ℕ) (history : List (String × ℕ))
    → total (insert v n history) + get_or (lookup v history) 0 ≡ total history + n
total-insert v n [] = omega arith
total-insert v n ((first, old) ∷ rest) = ground (arith, total-insert v n rest)

-- One more for a verdict, none for a missing one.
total-count_in :
    (v : Option String) (history : List (String × ℕ))
    → total (count_in v history) ≤ suc (total history)
total-count_in none history = omega arith
total-count_in (some v) history =
    omega (arith, total-insert v (suc (get_or (lookup v history) 0)) history)

le-total-count_in :
    (v : Option String) (history : List (String × ℕ)) → total history ≤ total (count_in v history)
le-total-count_in none history = omega arith
le-total-count_in (some v) history =
    omega (arith, total-insert v (suc (get_or (lookup v history) 0)) history)

total-counted :
    (vs : List (Option String)) (history : List (String × ℕ))
    → (total history ≤ total (counted vs history))
      × (total (counted vs history) ≤ total history + length vs)
total-counted [] history = (omega arith, omega arith)
total-counted (v ∷ vs) history =
    let rest = total-counted vs (count_in (truthy v) history) in
    (
      omega (arith, rest.0, le-total-count_in (truthy v) history),
      omega (arith, rest.1, total-count_in (truthy v) history),
    )

length-verdicts_of : (rs : List (String × Occurrence)) → length (verdicts_of rs) ≡ length rs
length-verdicts_of [] = refl
length-verdicts_of ((name, r) ∷ rs) = omega (arith, length-verdicts_of rs)

length-drop {ℓ} : {A : Type ℓ} (n : ℕ) (xs : List A) → length (drop n xs) ≡ length xs - n
length-drop zero xs = omega arith
length-drop (suc n) [] = omega arith
length-drop (suc n) (x ∷ xs) = omega (arith, length-drop n xs)

length-newest_le {ℓ} : {A : Type ℓ} (cap : ℕ) (xs : List A) → length (newest cap xs) ≤ cap
length-newest_le cap xs = omega (arith, length-drop (length xs - cap) xs)

-- A time stands in a list.
abbrev pub timed : ℕ → List (Option ℕ) → Bool
timed t [] = false
timed t (none ∷ ts) = timed t ts
timed t (some s ∷ ts) = s == t || timed t ts

earlier-some : (s t : ℕ) (o : Option ℕ) → s ≤ t → (n : ℕ) × (earlier (some s) o ≡ some n) × (n ≤ t)
earlier-some s t none h = (s, refl, h)
earlier-some s t (some u) h = (min s u, refl, omega arith)

earlier-rest :
    (s t : ℕ) (o : Option ℕ) (n : ℕ)
    → o ≡ some n
    → n ≤ t
    → (m : ℕ) × (earlier (some s) o ≡ some m) × (m ≤ t)
earlier-rest s t o n e h = (min s n, rw e refl, omega arith)

earliest-timed :
    (ts : List (Option ℕ)) (t : ℕ) → timed t ts ≡ true → (n : ℕ) × (earliest ts ≡ some n) × (n ≤ t)
earliest-timed [] t h = absurd (ground arith)
earliest-timed (none ∷ ts) t h = earliest-timed ts t h
earliest-timed (some s ∷ ts) t h = elim (Bool-cases (s == t)) [
  | inl here ↦ earlier-some s t (earliest ts) (ground arith)
  | inr further ↦
      let (n, e, le) = earliest-timed ts t (ground arith) in earlier-rest s t (earliest ts) n e le
]

later-some : (s t : ℕ) (o : Option ℕ) → t ≤ s → (n : ℕ) × (later (some s) o ≡ some n) × (t ≤ n)
later-some s t none h = (s, refl, h)
later-some s t (some u) h = (max s u, refl, omega arith)

later-rest :
    (s t : ℕ) (o : Option ℕ) (n : ℕ)
    → o ≡ some n
    → t ≤ n
    → (m : ℕ) × (later (some s) o ≡ some m) × (t ≤ m)
later-rest s t o n e h = (max s n, rw e refl, omega arith)

latest-timed :
    (ts : List (Option ℕ)) (t : ℕ) → timed t ts ≡ true → (n : ℕ) × (latest ts ≡ some n) × (t ≤ n)
latest-timed [] t h = absurd (ground arith)
latest-timed (none ∷ ts) t h = latest-timed ts t h
latest-timed (some s ∷ ts) t h = elim (Bool-cases (s == t)) [
  | inl here ↦ later-some s t (latest ts) (ground arith)
  | inr further ↦
      let (n, e, le) = latest-timed ts t (ground arith) in later-rest s t (latest ts) n e le
]

timed-more :
    (t : ℕ) (o : Option ℕ) (ts : List (Option ℕ)) → timed t ts ≡ true → timed t (o ∷ ts) ≡ true
timed-more t none ts h = h
timed-more t (some s) ts h = ground arith

module _ {R C : Type 0} (cap : ℕ) (fingerprint : String) (parts : Parts R C) where
  -- A composed group has no more members than the cap allows, and its histogram grows past the legacy
  -- record's by no more than its count of occurrences does.
  pub composed-IsBounded :
      let g = composed cap fingerprint parts in
      (length g.members ≤ cap)
      × (total (legacy_of parts).corroboration_history ≤ total g.corroboration_history)
      × (total g.corroboration_history + (legacy_of parts).occurrence_count
          ≤ total (legacy_of parts).corroboration_history + g.occurrence_count)
  unfolding composed
  composed-IsBounded =
      let counts =
        total-counted (verdicts_of (fresh_in parts)) (legacy_of parts).corroboration_history in
      (
        length-newest_le cap _,
        counts.0,
        omega (arith, counts.1, length-verdicts_of (fresh_in parts)),
      )

  -- The time of every occurrence that counts lies between the first and the last time of the group.
  pub composed-IsSpanned :
      (t : ℕ)
      → timed t (times_of (fresh_in parts)) ≡ true
      → ((n : ℕ) × ((composed cap fingerprint parts).first_seen ≡ some n) × (n ≤ t))
        × ((n : ℕ) × ((composed cap fingerprint parts).last_seen ≡ some n) × (t ≤ n))
  unfolding composed
  composed-IsSpanned t h = (
    earliest-timed (starts_in parts) t (
        timed-more t (get_or parts.meta no_meta).first_seen _
          (timed-more t (legacy_of parts).first_seen _ h)),
    with_default (latest-timed (ends_in parts) t (timed-more t (legacy_of parts).last_seen _ h)),
  )
    where
      with_default :
          (n : ℕ) × (latest (ends_in parts) ≡ some n) × (t ≤ n)
          → (n : ℕ) × (or_else (latest (ends_in parts)) (earliest (starts_in parts)) ≡ some n)
            × (t ≤ n)
      with_default (n, e, le) = (n, rw e refl, le)
