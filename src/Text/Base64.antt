-- ===== src/Text/Base64.antt =====
-- encoding/base64 in its RawURLEncoding, which writes no padding: four letters for three bytes.
-- The decoder skips carriage returns and line feeds, and does not look at the unused bits of the
-- last letter.
use goblin_ftp.Base.{
  not, ◌≢◌, ℕ, ◌≡◌, refl, ◌+◌, ◌-◌, ◌*◌, ◌/◌, ◌%◌, ◌<◌, Bool, List, [], ◌∷◌, Bytes, nat_eq, leb,
  ltb, ◌||◌, ◌&&◌, if◌then◌else◌, Option, none, some, All, arith,
}

-- The letter of six bits, and the six bits of a letter.
unfoldable pub letter : ℕ → ℕ
letter n =
    if ltb n 26
    then b'A' + n
    else if ltb n 52
    then b'a' + (n - 26)
    else if ltb n 62
    then b'0' + (n - 52)
    else if nat_eq n 62
    then b'-'
    else b'_'

unfoldable pub six_bits : ℕ → Option ℕ
six_bits c =
    if leb b'A' c && leb c b'Z'
    then some (c - b'A')
    else if leb b'a' c && leb c b'z'
    then some (c - b'a' + 26)
    else if leb b'0' c && leb c b'9'
    then some (c - b'0' + 52)
    else if nat_eq c b'-'
    then some 62
    else if nat_eq c b'_'
    then some 63
    else none

-- Encoding.EncodeToString
unfoldable pub encode_base64 : Bytes → Bytes
encode_base64 [] = []
encode_base64 (a ∷ []) = letter (a / 4) ∷ letter (a % 4 * 16) ∷ []
encode_base64 (a ∷ b ∷ []) =
    letter (a / 4) ∷ letter (a % 4 * 16 + b / 16) ∷ letter (b % 16 * 4) ∷ []
encode_base64 (a ∷ b ∷ c ∷ s) =
    letter (a / 4)
    ∷ letter (a % 4 * 16 + b / 16)
    ∷ letter (b % 16 * 4 + c / 64)
    ∷ letter (c % 64)
    ∷ encode_base64 s

-- The numbers of the letters; none when a byte is not a letter.
unfoldable pub read_letters : Bytes → Option (List ℕ)
read_letters [] = some []
read_letters (c ∷ s) =
    let rest = read_letters s in
    if nat_eq c b'\r' || nat_eq c b'\n' then rest else elim (six_bits c) [
      | none ↦ none
      | some n ↦ elim rest [ none ↦ none | some ns ↦ some (n ∷ ns) ]
    ]

-- A single letter at the end is an error, and for a strict decoder so are unused bits that are set.
unfoldable pub join_letters : Bool → List ℕ → Option Bytes
join_letters strict [] = some []
join_letters strict (i ∷ []) = none
join_letters strict (i ∷ j ∷ []) =
    if strict && not (nat_eq (j % 16) 0) then none else some ((i * 4 + j / 16) ∷ [])
join_letters strict (i ∷ j ∷ k ∷ []) =
    if strict && not (nat_eq (k % 4) 0)
    then none
    else some ((i * 4 + j / 16) ∷ (j % 16 * 16 + k / 4) ∷ [])
join_letters strict (i ∷ j ∷ k ∷ l ∷ ns) = elim (join_letters strict ns) [
  | none ↦ none
  | some s ↦ some ((i * 4 + j / 16) ∷ (j % 16 * 16 + k / 4) ∷ (k % 4 * 64 + l) ∷ s)
]

-- Encoding.DecodeString, of the plain and of the Strict encoding; what it returns beside an error
-- is not used.
unfoldable pub decode_base64 : Bool → Bytes → Option Bytes
decode_base64 strict s = elim (read_letters s) [ none ↦ none | some ns ↦ join_letters strict ns ]

abbrev pub IsByte : ℕ → Type 0
IsByte b = b < 256

six_bits-letter : (n : ℕ) → n < 64 → six_bits (letter n) ≡ some n
unfolding six_bits letter
six_bits-letter n h = ground arith

read_letter :
    (n : ℕ) (s : Bytes) (ns : List ℕ)
    → n < 64
    → read_letters s ≡ some ns
    → read_letters (letter n ∷ s) ≡ some (n ∷ ns)
unfolding read_letters letter six_bits
read_letter n s ns h e = ground arith

-- The bytes in sextets.
sextets : Bytes → List ℕ
sextets [] = []
sextets (a ∷ []) = (a / 4) ∷ (a % 4 * 16) ∷ []
sextets (a ∷ b ∷ []) = (a / 4) ∷ (a % 4 * 16 + b / 16) ∷ (b % 16 * 4) ∷ []
sextets (a ∷ b ∷ c ∷ s) =
    (a / 4) ∷ (a % 4 * 16 + b / 16) ∷ (b % 16 * 4 + c / 64) ∷ (c % 64) ∷ sextets s

read_letters-encode_base64 :
    (s : Bytes) → All IsByte s → read_letters (encode_base64 s) ≡ some (sextets s)
unfolding encode_base64 sextets
read_letters-encode_base64 [] h = unfold read_letters in refl
read_letters-encode_base64 (a ∷ []) h =
    read_letter _ _ _ (omega (arith, h.0))
      (read_letter _ _ _ (omega (arith, h.0)) (unfold read_letters in refl))
read_letters-encode_base64 (a ∷ b ∷ []) h = read_letter _ _ _ (omega (arith, h.0)) (
    read_letter _ _ _ (omega (arith, h.0, h.1.0))
      (read_letter _ _ _ (omega (arith, h.1.0)) (unfold read_letters in refl)))
read_letters-encode_base64 (a ∷ b ∷ c ∷ s) h = read_letter _ _ _ (omega (arith, h.0)) (
    read_letter _ _ _ (omega (arith, h.0, h.1.0)) (
      read_letter _ _ _ (omega (arith, h.1.0, h.1.1.0))
        (read_letter _ _ _ (omega arith) (read_letters-encode_base64 s h.1.1.1))))

-- The three bytes that four sextets give.
byte_0 : (a b : ℕ) → b < 256 → a / 4 * 4 + (a % 4 * 16 + b / 16) / 16 ≡ a
byte_0 a b h = omega arith

byte_1 :
    (a b c : ℕ) → c < 256 → (a % 4 * 16 + b / 16) % 16 * 16 + (b % 16 * 4 + c / 64) / 4 ≡ b % 256
byte_1 a b c h = omega arith

byte_2 : (b c : ℕ) → (b % 16 * 4 + c / 64) % 4 * 64 + c % 64 ≡ c % 256
byte_2 b c = omega arith

join_letters-sextets :
    (strict : Bool) (s : Bytes) → All IsByte s → join_letters strict (sextets s) ≡ some s
unfolding join_letters sextets
join_letters-sextets strict [] h = refl
join_letters-sextets strict (a ∷ []) h = ground (arith, h)
join_letters-sextets strict (a ∷ b ∷ []) h = ground (arith, byte_0 a b h.1.0, byte_1 a b 0, h)
join_letters-sextets strict (a ∷ b ∷ c ∷ s) h = ground (
  arith,
  byte_0 a b h.1.0,
  byte_1 a b c h.1.1.0,
  byte_2 b c,
  h,
  join_letters-sextets strict s h.1.1.1,
)

pub decode_base64-encode_base64 :
    (strict : Bool) (s : Bytes) → All IsByte s → decode_base64 strict (encode_base64 s) ≡ some s
unfolding decode_base64
decode_base64-encode_base64 strict s h =
    rw (decode_base64, read_letters-encode_base64 s h) (join_letters-sextets strict s h)

-- No letter is a colon.
abbrev pub IsLetter : ℕ → Type 0
IsLetter c = (c < 256) × (c ≢ b':')

letter-IsLetter : (n : ℕ) → n < 64 → IsLetter (letter n)
unfolding letter
letter-IsLetter n h = ground arith

pub encode_base64-IsLetter : (s : Bytes) → All IsByte s → All IsLetter (encode_base64 s)
unfolding encode_base64
encode_base64-IsLetter [] h = tt
encode_base64-IsLetter (a ∷ []) h =
    (letter-IsLetter _ (omega (arith, h.0)), (letter-IsLetter _ (omega arith), tt))
encode_base64-IsLetter (a ∷ b ∷ []) h = (
  letter-IsLetter _ (omega (arith, h.0)),
  (letter-IsLetter _ (omega (arith, h.1.0)), (letter-IsLetter _ (omega arith), tt)),
)
encode_base64-IsLetter (a ∷ b ∷ c ∷ s) h = (
  letter-IsLetter _ (omega (arith, h.0)),
  (
    letter-IsLetter _ (omega (arith, h.1.0)),
    (
      letter-IsLetter _ (omega (arith, h.1.1.0)),
      (letter-IsLetter _ (omega arith), encode_base64-IsLetter s h.1.1.1),
    ),
  ),
)
