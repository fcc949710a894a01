-- ===== src/Dlt/Identity/Digits.antt =====
-- The decimal digits of a number, as `str` writes a partition or an offset into an id.
use agentic_resident_crm.Prelude.{
  ℕ, zero, suc, ◌+◌, ◌-◌, ◌*◌, ◌/◌, ◌%◌, ◌<◌, [], ◌∷◌, ◌++◌, Text, if◌then◌else◌, ltb, ◌≡◌, refl,
  ap, sym, ◌∙◌, arith, inl, inr, Bool-cases,
}

-- With fuel, since the number shrinks by a division: one more than the number is enough.
abbrev pub decimal_from : ℕ → ℕ → Text
decimal_from zero n = []
decimal_from (suc fuel) n =
    let front = decimal_from fuel (n / 10) in
    if ltb n 10 then (b'0' + n) ∷ [] else front ++ (b'0' + n % 10) ∷ []

abbrev pub decimal : ℕ → Text
decimal n = decimal_from (suc n) n

-- What the digits say, read from the left.
abbrev read : ℕ → Text → ℕ
read before [] = before
read before (c ∷ t) = read (before * 10 + (c - b'0')) t

read-append :
    (before : ℕ) (t : Text) (c : ℕ) → read before (t ++ c ∷ []) ≡ read before t * 10 + (c - b'0')
read-append before [] c = refl
read-append before (x ∷ t) c = read-append (before * 10 + (x - b'0')) t c

read-decimal_from : (fuel n : ℕ) → n < fuel → read 0 (decimal_from fuel n) ≡ n
read-decimal_from zero n h = absurd (omega arith)
read-decimal_from (suc fuel) n h = elim (Bool-cases (ltb n 10)) [
  | inl small ↦ rw small (omega arith)
  | inr large ↦ rw large (
      read-append 0 (decimal_from fuel (n / 10)) (b'0' + n % 10)
      ∙ ground (arith, read-decimal_from fuel (n / 10)))
]

-- Different numbers have different digits.
pub decimal-injective : (n m : ℕ) → decimal n ≡ decimal m → n ≡ m
decimal-injective n m e =
    sym (read-decimal_from (suc n) n (omega arith))
    ∙ ap (read 0) e
    ∙ read-decimal_from (suc m) m (omega arith)

-- `negsuc n` is -(n + 1).
pub data ℤ : Type 0 where
  pos : ℕ → ℤ
  negsuc : ℕ → ℤ

-- `str` of an integer.
abbrev pub signed : ℤ → Text
signed (pos n) = decimal n
signed (negsuc n) = b'-' ∷ decimal (suc n)

abbrev pub magnitude : ℤ → ℕ
magnitude (pos n) = n
magnitude (negsuc n) = suc n
