-- ===== src/Dlt/Identity/Valid.antt =====
-- Every record with coordinates gets a valid id, and the storage key keeps records apart
-- (`derive_case_id` and `storage_key` of src/dlt/identity.py).
use agentic_resident_crm.Prelude.{
  ℕ, zero, suc, ◌+◌, ◌-◌, ◌/◌, ◌%◌, ◌≤◌, ◌<◌, Bool, true, false, ◌&&◌, [], ◌∷◌, ◌++◌, Option, none,
  some, Text, if◌then◌else◌, leb, ltb, length, take, length-append, ◌≡◌, refl, ◌∙◌, arith, inl, inr,
  Bool-cases, if_on,
}
use agentic_resident_crm.Dlt.Parked.Entries.{is_id_char, all_id_chars, is_event_id}
use agentic_resident_crm.Dlt.Identity.Digits.{ℤ, pos, negsuc, decimal_from, signed}
use agentic_resident_crm.Dlt.Identity.{
  case_id_prefix, dash, max_case_id_length, sanitised, sanitise, group_of, group_suffix, suffix_of,
  short_head, long_head, case_id_of, derive_case_id, keyed,
}

all_id_chars-append : (s t : Text) → all_id_chars (s ++ t) ≡ (all_id_chars s && all_id_chars t)
all_id_chars-append [] t = refl
all_id_chars-append (c ∷ s) t = ground (arith, all_id_chars-append s t)

all_id_chars-both :
    (s t : Text) → all_id_chars s ≡ true → all_id_chars t ≡ true → all_id_chars (s ++ t) ≡ true
all_id_chars-both s t hs ht = all_id_chars-append s t ∙ rw (hs, ht) refl

is_id_char-sanitised : (c : ℕ) → is_id_char (sanitised c) ≡ true
is_id_char-sanitised c = elim (Bool-cases (is_id_char c)) [
  | inl ok ↦ rw ok ok
  | inr not_ok ↦ rw not_ok refl
]

all_id_chars-sanitise : (t : Text) → all_id_chars (sanitise t) ≡ true
all_id_chars-sanitise [] = refl
all_id_chars-sanitise (c ∷ t) = rw (is_id_char-sanitised c) (all_id_chars-sanitise t)

all_id_chars-take : (n : ℕ) (t : Text) → all_id_chars t ≡ true → all_id_chars (take n t) ≡ true
all_id_chars-take zero t h = refl
all_id_chars-take (suc n) [] h = refl
all_id_chars-take (suc n) (c ∷ t) h = ground (arith, all_id_chars-take n t)

length-take_le : (n : ℕ) (t : Text) → length (take n t) ≤ n
length-take_le zero t = omega arith
length-take_le (suc n) [] = omega arith
length-take_le (suc n) (c ∷ t) = omega (arith, length-take_le n t)

is_id_char-digit : (n : ℕ) → n < 10 → is_id_char (b'0' + n) ≡ true
is_id_char-digit n h = ground arith

all_id_chars-decimal_from : (fuel n : ℕ) → all_id_chars (decimal_from fuel n) ≡ true
all_id_chars-decimal_from zero n = refl
all_id_chars-decimal_from (suc fuel) n = elim (Bool-cases (ltb n 10)) [
  | inl small ↦ rw small (rw (is_id_char-digit n (ground arith)) refl)
  | inr large ↦ rw large (
      all_id_chars-both (decimal_from fuel (n / 10)) ((b'0' + n % 10) ∷ [])
        (all_id_chars-decimal_from fuel (n / 10))
        (rw (is_id_char-digit (n % 10) (omega arith)) refl))
]

all_id_chars-signed : (z : ℤ) → all_id_chars (signed z) ≡ true
all_id_chars-signed (pos n) = all_id_chars-decimal_from (suc n) n
all_id_chars-signed (negsuc n) = all_id_chars-decimal_from (suc (suc n)) (suc n)

is_event_id-made :
    (t : Text) → 1 ≤ length t → length t ≤ 128 → all_id_chars t ≡ true → is_event_id t ≡ true
is_event_id-made t h1 h2 h3 = ground arith

length-joined :
    (s t u : Text)
    → length s + length t ≤ 99
    → length u ≤ 12
    → length (dash ++ (s ++ (dash ++ (t ++ u)))) ≤ 113
length-joined s t u h hu = omega (arith, length-append s (dash ++ (t ++ u)), length-append t u)

module _ (digest : Text → Text) (ten : (t : Text) → length (digest t) ≡ 10)
    (hex : (t : Text) → all_id_chars (digest t) ≡ true) where
  group_suffix-short : (group : Text) → length (group_suffix digest group) ≤ 12
  group_suffix-short [] = omega arith
  group_suffix-short (c ∷ t) = omega (arith, ten (c ∷ t))

  all_id_chars-group_suffix : (group : Text) → all_id_chars (group_suffix digest group) ≡ true
  all_id_chars-group_suffix [] = refl
  all_id_chars-group_suffix (c ∷ t) = hex (c ∷ t)

  all_id_chars-suffix_of :
      (p o : ℤ) (group : Text) → all_id_chars (suffix_of digest p o group) ≡ true
  all_id_chars-suffix_of p o group =
      all_id_chars-both dash (signed p ++ (dash ++ (signed o ++ group_suffix digest group))) refl (
        all_id_chars-both (signed p) (dash ++ (signed o ++ group_suffix digest group))
          (all_id_chars-signed p)
          (all_id_chars-both dash (signed o ++ group_suffix digest group) refl (
            all_id_chars-both (signed o) (group_suffix digest group) (all_id_chars-signed o)
              (all_id_chars-group_suffix group))))

  long-IsEventId :
      (middle digits suffix : Text)
      → length middle + (length digits + length suffix) ≤ 123
      → all_id_chars middle ≡ true
      → all_id_chars digits ≡ true
      → all_id_chars suffix ≡ true
      → is_event_id ((case_id_prefix ++ (dash ++ (middle ++ (dash ++ digits)))) ++ suffix) ≡ true
  long-IsEventId middle digits suffix short hm hd hs =
      is_event_id-made ((case_id_prefix ++ (dash ++ (middle ++ (dash ++ digits)))) ++ suffix)
        (omega (arith, size)) (omega (arith, size, short))
        (all_id_chars-both (case_id_prefix ++ (dash ++ (middle ++ (dash ++ digits)))) suffix
          (all_id_chars-both (case_id_prefix ++ dash) (middle ++ (dash ++ digits)) refl
            (all_id_chars-both middle (dash ++ digits) hm (all_id_chars-both dash digits refl hd)))
          hs)
    where
      size :
          length ((case_id_prefix ++ (dash ++ (middle ++ (dash ++ digits)))) ++ suffix)
          ≡ 5 + (length middle + (length digits + length suffix))
      size = omega (
        arith,
        length-append (middle ++ (dash ++ digits)) suffix,
        length-append middle (dash ++ digits),
      )

  is_event_id-case_id_of :
      (topic suffix : Text)
      → length suffix ≤ 113
      → all_id_chars suffix ≡ true
      → is_event_id (case_id_of digest topic suffix) ≡ true
  is_event_id-case_id_of topic suffix h chars =
      by_length (ltb max_case_id_length (length (short_head digest topic ++ suffix))) refl
    where
      room : ℕ
      room =
          max_case_id_length - (length suffix + length (digest topic) + length case_id_prefix + 2)

      by_length :
          (long : Bool)
          → ltb max_case_id_length (length (short_head digest topic ++ suffix)) ≡ long
          → is_event_id (
              if long
              then long_head digest topic suffix ++ suffix
              else short_head digest topic ++ suffix)
            ≡ true
      by_length true e =
          long-IsEventId (take room (sanitise topic)) (digest topic) suffix
            (omega (arith, ten topic, length-take_le room (sanitise topic)))
            (all_id_chars-take room (sanitise topic) (all_id_chars-sanitise topic)) (hex topic)
            chars
      by_length false e =
          ground
            (arith, all_id_chars-both (sanitise topic) suffix (all_id_chars-sanitise topic) chars)

  length-suffix_of :
      (p o : ℤ) (group : Text)
      → length (signed p) + length (signed o) ≤ 99
      → length (suffix_of digest p o group) ≤ 113
  length-suffix_of p o group h =
      length-joined (signed p) (signed o) (group_suffix digest group) h (group_suffix-short group)

  -- Where the digest gives ten characters of an id, a record with a topic, a partition and an offset
  -- whose digits and signs are at most 99 together always gets an id, whatever the topic and the group are, and
  -- the id is a valid one.
  pub derive_case_id-IsDerived :
      (topic : Text) (p o : ℤ) (consumer_group : Option Text)
      → length (signed p) + length (signed o) ≤ 99
      → (case_id : Text) × (derive_case_id digest (some topic) (some p) (some o) consumer_group
          ≡ some case_id)
        × (is_event_id case_id ≡ true)
  unfolding derive_case_id
  derive_case_id-IsDerived topic p o consumer_group h =
      (case_id, if_on (is_event_id case_id) _ none valid, valid)
    where
      group : Text
      group = group_of consumer_group

      case_id : Text
      case_id = case_id_of digest topic (suffix_of digest p o group)

      valid : is_event_id case_id ≡ true
      valid =
          is_event_id-case_id_of topic (suffix_of digest p o group) (length-suffix_of p o group h)
            (all_id_chars-suffix_of p o group)

  -- The test that `storage_key` puts to a key, which reads no more of the digest than its length and
  -- its characters.
  pub keyed-fits :
      (ref_id c d : Text)
      → (leb (length (keyed digest ref_id c)) max_case_id_length
          && is_event_id (keyed digest ref_id c))
        ≡ (leb (length (keyed digest ref_id d)) max_case_id_length
            && is_event_id (keyed digest ref_id d))
  keyed-fits ref_id c d = rw (fits c, fits d) refl
    where
      fits :
          (e : Text)
          → (leb (length (keyed digest ref_id e)) max_case_id_length
              && is_event_id (keyed digest ref_id e))
            ≡ (leb (length ref_id + 12) max_case_id_length && all_id_chars ref_id)
      fits e = ground (
        arith,
        length-append ref_id (b'_' ∷ b'_' ∷ digest e),
        ten e,
        hex e,
        all_id_chars-append ref_id (b'_' ∷ b'_' ∷ digest e),
      )
