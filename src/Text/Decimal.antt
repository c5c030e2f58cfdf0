-- ===== src/Text/Decimal.antt =====
-- strconv.Itoa, FormatInt and ParseInt in base ten.
use goblin_ftp.Base.{
  ℕ, zero, suc, ◌≡◌, refl, ap, ◌∙◌, ◌+◌, ◌-◌, ◌*◌, ◌/◌, ◌%◌, ◌^◌, ◌<◌, ◌≤◌, ◌≢◌, [], ◌∷◌, ◌++◌,
  Bytes, nat_eq, leb, ltb, ◌&&◌, if◌then◌else◌, Option, none, some, arith, All, All-append,
  Bool-cases, inl, inr, ltb→lt, lt→ltb, All-weaken, append_one-ne-nil,
}
use goblin_ftp.Base.Ints.{ℤ, pos, negsuc}

-- The digits of a number, on fuel: as many digits as fuel are enough.
unfoldable pub digits : ℕ → ℕ → Bytes
digits zero n = []
digits (suc fuel) n =
    let above = digits fuel (n / 10) in
    if ltb n 10 then (b'0' + n) ∷ [] else above ++ ((b'0' + n % 10) ∷ [])

unfoldable pub itoa : ℕ → Bytes
itoa n = digits (suc n) n

unfoldable pub format_int : ℤ → Bytes
format_int (pos n) = itoa n
format_int (negsuc n) = b'-' ∷ itoa (n + 1)

-- ParseUint without its bound on the value.
unfoldable pub read_digits : ℕ → Bytes → Option ℕ
read_digits n [] = some n
read_digits n (c ∷ s) =
    if leb b'0' c && leb c b'9' then read_digits (n * 10 + (c - b'0')) s else none

unfoldable pub parse_uint : Bytes → Option ℕ
parse_uint [] = none
parse_uint (c ∷ s) = read_digits 0 (c ∷ s)

-- The values of 64 bits: below 2 ^ 63, and down to -(2 ^ 63).
unfoldable pub in_range_pos : Option ℕ → Option ℤ
in_range_pos none = none
in_range_pos (some n) = if ltb n (2 ^ 63) then some (pos n) else none

unfoldable pub in_range_neg : Option ℕ → Option ℤ
in_range_neg none = none
in_range_neg (some zero) = some (pos 0)
in_range_neg (some (suc n)) = if ltb n (2 ^ 63) then some (negsuc n) else none

-- ParseInt of 64 bits; an error, of the syntax or of the range, is none.
unfoldable pub parse_int : Bytes → Option ℤ
parse_int [] = none
parse_int (c ∷ s) =
    if nat_eq c b'-'
    then in_range_neg (parse_uint s)
    else if nat_eq c b'+'
    then in_range_pos (parse_uint s)
    else in_range_pos (parse_uint (c ∷ s))

abbrev pub InRange : ℤ → Type 0
InRange (pos n) = n < 2 ^ 63
InRange (negsuc n) = n < 2 ^ 63

-- Bytes that are digits.
abbrev pub IsDigit : ℕ → Type 0
IsDigit c = (b'0' ≤ c) × (c ≤ b'9')

digits-IsDigit : (fuel n : ℕ) → All IsDigit (digits fuel n)
unfolding digits
digits-IsDigit zero n = tt
digits-IsDigit (suc fuel) n = elim (Bool-cases (ltb n 10)) [
  | inl t ↦ rw (t) ((omega arith, omega (arith, ltb→lt n 10 t)), tt)
  | inr f ↦
      rw (f)
        (All-append IsDigit _ _ (digits-IsDigit fuel (n / 10)) ((omega arith, omega arith), tt))
]

read_digits-append_one :
    (acc n d : ℕ) (s : Bytes)
    → d < 10
    → read_digits acc s ≡ some n
    → read_digits acc (s ++ ((b'0' + d) ∷ [])) ≡ some (n * 10 + d)
unfolding read_digits
read_digits-append_one acc n d [] h e = ground arith
read_digits-append_one acc n d (c ∷ s) h e =
    ground (arith, read_digits-append_one (acc * 10 + (c - b'0')) n d s h)

read_digits-digits : (fuel n : ℕ) → n < fuel → read_digits 0 (digits fuel n) ≡ some n
unfolding digits read_digits
read_digits-digits zero n h = absurd (omega (arith, h))
read_digits-digits (suc fuel) n h = elim (Bool-cases (ltb n 10)) [
  | inl t ↦ rw (t) (ground (arith))
  | inr f ↦ rw (f) (
      read_digits-append_one 0 (n / 10) (n % 10) (digits fuel (n / 10)) (omega arith)
        (read_digits-digits fuel (n / 10) (ground (arith, h)))
      ∙ ap some (omega arith))
]

digits-ne-nil : (fuel n : ℕ) → digits (suc fuel) n ≢ []
unfolding digits
digits-ne-nil fuel n e = elim (Bool-cases (ltb n 10)) [
  | inl t ↦ cons-ne-nil (b'0' + n) [] (rw (t) at e)
  | inr f ↦ append_one-ne-nil (digits fuel (n / 10)) (b'0' + n % 10) (rw (f) at e)
]
  where
    cons-ne-nil : (c : ℕ) (s : Bytes) → (c ∷ s) ≢ []
    cons-ne-nil c s h = cc

parse_uint_of_digits : (s : Bytes) → s ≢ [] → parse_uint s ≡ read_digits 0 s
unfolding parse_uint
parse_uint_of_digits [] h = absurd (h refl)
parse_uint_of_digits (c ∷ s) h = refl

parse_uint-itoa : (n : ℕ) → parse_uint (itoa n) ≡ some n
unfolding itoa
parse_uint-itoa n =
    parse_uint_of_digits (digits (suc n) n) (digits-ne-nil n n)
    ∙ read_digits-digits (suc n) n (omega arith)

pub itoa-IsDigit : (n : ℕ) → All IsDigit (itoa n)
unfolding itoa
itoa-IsDigit n = digits-IsDigit (suc n) n

itoa-ne-nil : (n : ℕ) → itoa n ≢ []
unfolding itoa
itoa-ne-nil n = digits-ne-nil n n

pub itoa_injective : (m n : ℕ) → itoa m ≡ itoa n → m ≡ n
itoa_injective m n e = ground (arith, parse_uint-itoa m, parse_uint-itoa n, ap parse_uint e)

-- Text without a sign is read as it stands.
parse_int_of_digits :
    (s : Bytes) → s ≢ [] → All IsDigit s → parse_int s ≡ in_range_pos (parse_uint s)
unfolding parse_int
parse_int_of_digits [] h d = absurd (h refl)
parse_int_of_digits (c ∷ s) h d = ground (arith, d)

pub parse_int-format_int : (z : ℤ) → InRange z → parse_int (format_int z) ≡ some z
unfolding format_int in_range_pos in_range_neg parse_int
parse_int-format_int (pos n) h =
    parse_int_of_digits (itoa n) (itoa-ne-nil n) (itoa-IsDigit n)
    ∙ rw (parse_uint-itoa n, lt→ltb n (2 ^ 63) h) refl
parse_int-format_int (negsuc n) h = ground (arith, parse_uint-itoa (n + 1), h)

module _ {κ} (P : ℕ → Type κ) (digit : (c : ℕ) → IsDigit c → P c) (minus : P b'-') where
  format_int-All : (z : ℤ) → All P (format_int z)
  unfolding format_int
  format_int-All (pos n) = All-weaken IsDigit P (itoa n) digit (itoa-IsDigit n)
  format_int-All (negsuc n) =
      (minus, All-weaken IsDigit P (itoa (n + 1)) digit (itoa-IsDigit (n + 1)))

-- The decimal notation holds no colon.
pub format_int-NoColon : (z : ℤ) → All (λ c. c ≢ b':') (format_int z)
format_int-NoColon = format_int-All (λ c. c ≢ b':') (λ c d. omega (arith, d)) (omega arith)

pub format_int-IsByte : (z : ℤ) → All (λ c. c < 256) (format_int z)
format_int-IsByte = format_int-All (λ c. c < 256) (λ c d. omega (arith, d)) (omega arith)
