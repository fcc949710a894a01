-- ===== src/Dlt/Identity/Coordinates.antt =====
-- Ids and keys tell records apart (`derive_case_id` and `storage_key` of src/dlt/identity.py).
use mathlib.Core.List.{append_assoc}
use agentic_resident_crm.Prelude.{
  ℕ, zero, suc, ◌+◌, ◌≤◌, ◌≢◌, ◌/◌, ◌%◌, Bool, true, false, ◌&&◌, ◌||◌, nat_eq, contains, [], ◌∷◌,
  ◌++◌, Option, none, some, Text, if◌then◌else◌, leb, ltb, length, drop, get_or, length-append, ◌≡◌,
  refl, ap, sym, ◌∙◌, arith, ◌⊎◌, inl, inr, Bool-cases, if_on,
}
use agentic_resident_crm.Dlt.Parked.Entries.{all_id_chars, is_event_id}
use agentic_resident_crm.Dlt.Identity.Digits.{
  ℤ, pos, negsuc, decimal_from, decimal, decimal-injective, signed, magnitude,
}
use agentic_resident_crm.Dlt.Identity.Valid.{keyed-fits}
use agentic_resident_crm.Dlt.Identity.{
  dash, max_case_id_length, group_of, group_suffix, suffix_of, short_head, long_head, case_id_of,
  if_valid, derive_case_id, keyed, storage_key,
}

append_cancel : (s t u : Text) → s ++ t ≡ s ++ u → t ≡ u
append_cancel [] t u h = h
append_cancel (c ∷ s) t u h = append_cancel s t u (ap (drop 1) h)

append_cancel_right : (s t u : Text) → s ++ u ≡ t ++ u → s ≡ t
append_cancel_right [] [] u h = refl
append_cancel_right [] (y ∷ t) u h = absurd (omega (arith, ap length h, length-append t u))
append_cancel_right (x ∷ s) [] u h = absurd (omega (arith, ap length h, length-append s u))
append_cancel_right (x ∷ s) (y ∷ t) u h =
    ground (arith, append_cancel_right s t u (ap (drop 1) h), h)

contains-append : (s t : Text) (c : ℕ) → contains (s ++ t) c ≡ (contains s c || contains t c)
contains-append [] t c = refl
contains-append (x ∷ s) t c = ground (arith, contains-append s t c)

-- Where no dash follows, the last dash splits a text in one way.
last_dash :
    (s t o p : Text)
    → contains o b'-' ≡ false
    → contains p b'-' ≡ false
    → s ++ b'-' ∷ o ≡ t ++ b'-' ∷ p
    → (s ≡ t) × (o ≡ p)
last_dash [] [] o p ho hp h = (refl, ap (drop 1) h)
last_dash [] (y ∷ t) o p ho hp h =
    absurd
      (ground (arith, ap (λ u. contains u b'-') (ap (drop 1) h), contains-append t (b'-' ∷ p) b'-'))
last_dash (x ∷ s) [] o p ho hp h =
    absurd
      (ground (arith, ap (λ u. contains u b'-') (ap (drop 1) h), contains-append s (b'-' ∷ o) b'-'))
last_dash (x ∷ s) (y ∷ t) o p ho hp h =
    let rest = last_dash s t o p ho hp (ap (drop 1) h) in (ground (arith, h, rest), rest.1)

contains-decimal_from : (fuel n : ℕ) → contains (decimal_from fuel n) b'-' ≡ false
contains-decimal_from zero n = refl
contains-decimal_from (suc fuel) n = elim (Bool-cases (ltb n 10)) [
  | inl small ↦ rw small (ground arith)
  | inr large ↦ rw large (
      ground (
        arith,
        contains-decimal_from fuel (n / 10),
        contains-append (decimal_from fuel (n / 10)) ((b'0' + n % 10) ∷ []) b'-',
      ))
]

decimal_from-some : (fuel n : ℕ) → 1 ≤ length (decimal_from (suc fuel) n)
decimal_from-some fuel n = elim (Bool-cases (ltb n 10)) [
  | inl small ↦ rw small (omega arith)
  | inr large ↦
      rw large (omega (arith, length-append (decimal_from fuel (n / 10)) ((b'0' + n % 10) ∷ [])))
]

decimal_dashless : (n : ℕ) → contains (decimal n) b'-' ≡ false
decimal_dashless n = contains-decimal_from (suc n) n

-- What stands before the last dash of a text that ends in a dash and this number.
abbrev before : ℤ → Text → Text
before (pos n) s = s
before (negsuc n) s = s ++ dash

before_lem :
    (z : ℤ) (s end : Text)
    → s ++ (dash ++ (signed z ++ end)) ≡ (before z s ++ b'-' ∷ decimal (magnitude z)) ++ end
before_lem (pos n) s end = sym (append_assoc s (b'-' ∷ decimal n) end)
before_lem (negsuc n) s end = sym (
    append_assoc (s ++ dash) (b'-' ∷ decimal (suc n)) end
    ∙ append_assoc s dash (b'-' ∷ (decimal (suc n) ++ end)))

-- A text that ends in a digit is not one that ends in a dash.
digit_no_dash : (s t : Text) (n : ℕ) → s ++ b'-' ∷ decimal n ≢ t ++ dash
digit_no_dash s t n h =
    let (_, same) = last_dash s t (decimal n) [] (decimal_dashless n) refl h in
    absurd (omega (arith, ap length same, decimal_from-some n n))

-- Where a number stands before, the dash and the sign of the next one are told apart.
before-injective :
    (o r : ℤ) (s t : Text) (m n : ℕ)
    → before o (s ++ b'-' ∷ decimal m) ≡ before r (t ++ b'-' ∷ decimal n)
    → magnitude o ≡ magnitude r
    → (s ++ b'-' ∷ decimal m ≡ t ++ b'-' ∷ decimal n) × (o ≡ r)
before-injective (pos a) (pos b) s t m n h e = (h, ap pos e)
before-injective (negsuc a) (negsuc b) s t m n h e =
    (append_cancel_right _ _ dash h, ap negsuc (omega (arith, e)))
before-injective (pos a) (negsuc b) s t m n h e =
    elim (digit_no_dash s (t ++ b'-' ∷ decimal n) m h) [ ]
before-injective (negsuc a) (pos b) s t m n h e =
    elim (digit_no_dash t (s ++ b'-' ∷ decimal m) n (sym h)) [ ]

-- The numbers after the last two dashes before a common end, but for the sign of the first.
last_fields :
    (s t : Text) (p q o r : ℤ) (end : Text)
    → s ++ (dash ++ (signed p ++ (dash ++ (signed o ++ end))))
      ≡ t ++ (dash ++ (signed q ++ (dash ++ (signed r ++ end))))
    → (magnitude p ≡ magnitude q) × (o ≡ r)
last_fields s t p q o r end h = (decimal-injective _ _ inner.1, told.1)
  where
    front : Text → ℤ → Text
    front u z = before z u ++ b'-' ∷ decimal (magnitude z)

    grouped :
        (u : Text) (y z : ℤ)
        → u ++ (dash ++ (signed y ++ (dash ++ (signed z ++ end)))) ≡ front (front u y) z ++ end
    grouped u y z = before_lem y u (dash ++ (signed z ++ end)) ∙ before_lem z (front u y) end

    outer :
        (before o (front s p) ≡ before r (front t q))
        × (decimal (magnitude o) ≡ decimal (magnitude r))
    outer =
        last_dash _ _ _ _ (decimal_dashless (magnitude o)) (decimal_dashless (magnitude r))
          (append_cancel_right _ _ end (sym (grouped s p o) ∙ h ∙ grouped t q r))

    told : (front s p ≡ front t q) × (o ≡ r)
    told =
        before-injective o r (before p s) (before q t) (magnitude p) (magnitude q) outer.0
          (decimal-injective _ _ outer.1)

    inner : (before p s ≡ before q t) × (decimal (magnitude p) ≡ decimal (magnitude q))
    inner =
        last_dash _ _ _ _ (decimal_dashless (magnitude p)) (decimal_dashless (magnitude q)) told.0

module _ (digest : Text → Text) where
  if_valid-some : (t case_id : Text) → if_valid digest t ≡ some case_id → t ≡ case_id
  if_valid-some t case_id h = elim (Bool-cases (is_event_id t)) [
    | inl ok ↦ ap (λ o. get_or o []) (sym (if_on (is_event_id t) (some t) none ok) ∙ h)
    | inr not_ok ↦ absurd (ground (arith, h, not_ok))
  ]

  case_id_of-ends :
      (topic suffix : Text) → (head : Text) × (case_id_of digest topic suffix ≡ head ++ suffix)
  case_id_of-ends topic suffix =
      by_length (ltb max_case_id_length (length (short_head digest topic ++ suffix)))
    where
      by_length :
          (long : Bool)
          → (head : Text) × ((if long
                then long_head digest topic suffix ++ suffix
                else short_head digest topic ++ suffix)
              ≡ head ++ suffix)
      by_length true = (long_head digest topic suffix, refl)
      by_length false = (short_head digest topic, refl)

  -- Two records of which the same consumer group gave up, or which name no group, and which have one
  -- id, have one offset, and partitions that differ at most in their sign, whatever their topics are
  -- and even where these are cut.
  pub derive_case_id-coordinates :
      (s t : Text) (p q o r : ℤ) (consumer_group : Option Text) (case_id : Text)
      → derive_case_id digest (some s) (some p) (some o) consumer_group ≡ some case_id
      → derive_case_id digest (some t) (some q) (some r) consumer_group ≡ some case_id
      → (magnitude p ≡ magnitude q) × (o ≡ r)
  unfolding derive_case_id
  derive_case_id-coordinates s t p q o r consumer_group case_id h k =
      last_fields first.0 second.0 p q o r end
        (sym first.1 ∙ if_valid-some _ case_id h ∙ sym (if_valid-some _ case_id k) ∙ second.1)
    where
      end : Text
      end = group_suffix digest (group_of consumer_group)

      first :
          (head : Text) × (case_id_of digest s (suffix_of digest p o (group_of consumer_group))
            ≡ head ++ suffix_of digest p o (group_of consumer_group))
      first = case_id_of-ends s (suffix_of digest p o (group_of consumer_group))

      second :
          (head : Text) × (case_id_of digest t (suffix_of digest q r (group_of consumer_group))
            ≡ head ++ suffix_of digest q r (group_of consumer_group))
      second = case_id_of-ends t (suffix_of digest q r (group_of consumer_group))

module _ (digest : Text → Text) (ten : (t : Text) → length (digest t) ≡ 10)
    (hex : (t : Text) → all_id_chars (digest t) ≡ true) where
  -- Where the digest gives ten characters of an id, two records of one packet that share a storage
  -- key have one case id, or case ids with one digest.
  pub storage_key-apart :
      (ref_id : Option Text) (c d : Text)
      → storage_key digest ref_id c ≡ storage_key digest ref_id d
      → (c ≡ d) ⊎ (digest c ≡ digest d)
  unfolding storage_key
  storage_key-apart none c d h = inl h
  storage_key-apart (some []) c d h = inl h
  storage_key-apart (some (x ∷ t)) c d h =
      by_test _ (keyed-fits digest ten hex (x ∷ t) c d) _ refl h
    where
      by_test :
          (at_c : Bool)
          → at_c ≡ (
              leb (length (keyed digest (x ∷ t) d)) max_case_id_length
              && is_event_id (keyed digest (x ∷ t) d))
          → (at_d : Bool)
          → at_d ≡ (
              leb (length (keyed digest (x ∷ t) d)) max_case_id_length
              && is_event_id (keyed digest (x ∷ t) d))
          → (if at_c then keyed digest (x ∷ t) c else c)
            ≡ (if at_d then keyed digest (x ∷ t) d else d)
          → (c ≡ d) ⊎ (digest c ≡ digest d)
      by_test true e true f same = inr (ap (drop 2) (append_cancel (x ∷ t) _ _ same))
      by_test false e false f same = inl same
      by_test true e false f same = absurd (ground (arith, e, f))
      by_test false e true f same = absurd (ground (arith, e, f))
