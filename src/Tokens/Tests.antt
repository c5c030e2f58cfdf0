-- ===== src/Tokens/Tests.antt =====
-- Runs of the tokens.
use goblin_ftp.Base.{
  ◌≡◌, ◌-◌, refl, ap, sym, ◌∙◌, subst, Bool, true, false, ◌&&◌, [], ◌∷◌, ◌++◌, Bytes, codes,
  bytes_eq_iff, none, some, inl, inr, All, arith, bytes_has_eq, ◌==◌, length, if◌then◌else◌, nat_eq,
  length-append, All-append, ltb,
}
use goblin_ftp.Text.Base64.{
  IsByte, six_bits, letter, encode_base64, decode_base64, read_letters, join_letters,
}
use goblin_ftp.Base.Ints.{ℤ, pos, negsuc, gtb}
use goblin_ftp.Text.Decimal.{
  itoa, digits, format_int, parse_int, parse_uint, read_digits, in_range_pos,
}
use goblin_ftp.Text.Slice.{take, drop, take-append}
use goblin_ftp.Text.Cut.{cut, split_n, hex, hex_digit}
use goblin_ftp.Tokens.{
  Payload, Crypto, compute_hmac, signed_message, issue_token, open_token, check_parts,
  validate_token, encrypt, decrypt, expired, bad_encoding, validate_csrf_token,
}
use goblin_ftp.Tokens.Download.{IsSigned, validate_token-issue_token, validate_token_sound}
use goblin_ftp.Tokens.Sso.{IsLawful, decrypt_one_spelling, decrypt-encrypt}

-- A MAC of two bytes.
abbrev toy_mac : Bytes → Bytes → Bytes
toy_mac secret message = 7 ∷ 200 ∷ []

toy_mac-IsByte : (secret message : Bytes) → All IsByte (toy_mac secret message)
toy_mac-IsByte secret message = (omega arith, (omega arith, tt))

issued : issue_token toy_mac [] (codes "k") (codes "/a") (pos 100) ≡ codes "azpMMkU6MTAwOjA3Yzg"
unfolding issue_token signed_message compute_hmac encode_base64 letter format_int itoa digits hex
    hex_digit
issued = refl

validate_token-issue_token_example :
    validate_token toy_mac [] (issue_token toy_mac [] (codes "k") (codes "/a") (pos 100)) (pos 100)
    ≡ inr (codes "k", codes "/a")
unfolding gtb
validate_token-issue_token_example =
    validate_token-issue_token toy_mac toy_mac-IsByte [] (codes "k") (codes "/a") (pos 100)
      (pos 100) (omega arith, tt) (omega arith, (omega arith, tt)) (omega arith, tt) (omega arith)
      refl

accepted :
    validate_token toy_mac [] (codes "azpMMkU6MTAwOjA3Yzg") (pos 100) ≡ inr (codes "k", codes "/a")
unfolding validate_token decode_base64 read_letters six_bits join_letters check_parts split_n cut
    compute_hmac hex hex_digit signed_message open_token parse_int parse_uint read_digits
    in_range_pos gtb
accepted = refl

late : validate_token toy_mac [] (codes "azpMMkU6MTAwOjA3Yzg") (pos 101) ≡ inl expired
unfolding validate_token decode_base64 read_letters six_bits join_letters check_parts split_n cut
    compute_hmac hex hex_digit signed_message open_token parse_int parse_uint read_digits
    in_range_pos gtb
late = refl

validate_token_sound_example :
    IsSigned toy_mac [] (codes "azpMMkU6MTAwOjA3Yzg") (pos 100) (codes "k") (codes "/a")
validate_token_sound_example =
    validate_token_sound toy_mac [] (codes "azpMMkU6MTAwOjA3Yzg") (pos 100) (codes "k") (codes "/a")
      accepted

abbrev sample : Payload
sample = record {
  kind = codes "ftp";
  host = codes "h";
  port = pos 21;
  username = [];
  password = [];
  initial_directory = [];
  language = [];
  tenant = [];
  exp = pos 100;
}

abbrev int_eq : ℤ → ℤ → Bool
int_eq (pos m) (pos n) = nat_eq m n
int_eq (negsuc m) (negsuc n) = nat_eq m n
int_eq (pos m) (negsuc n) = false
int_eq (negsuc m) (pos n) = false

abbrev is_sample : Payload → Bool
is_sample p =
    p.kind == sample.kind
    && p.host == sample.host
    && int_eq p.port (pos 21)
    && p.username == []
    && p.password == []
    && p.initial_directory == []
    && p.language == []
    && p.tenant == []
    && int_eq p.exp (pos 100)

int_eq_sound : (m n : ℤ) → int_eq m n ≡ true → m ≡ n
int_eq_sound (pos m) (pos n) h = ground arith
int_eq_sound (negsuc m) (negsuc n) h = ground arith
int_eq_sound (pos m) (negsuc n) h = ground arith
int_eq_sound (negsuc m) (pos n) h = ground arith

is_sample_sound : (p : Payload) → is_sample p ≡ true → p ≡ sample
is_sample_sound p h = ground (
  arith,
  bytes_eq_iff p.kind sample.kind,
  bytes_eq_iff p.host sample.host,
  int_eq_sound p.port (pos 21),
  bytes_eq_iff p.username [],
  bytes_eq_iff p.password [],
  bytes_eq_iff p.initial_directory [],
  bytes_eq_iff p.language [],
  bytes_eq_iff p.tenant [],
  int_eq_sound p.exp (pos 100),
  h,
)

zeros : Bytes
zeros = 0 ∷ 0 ∷ 0 ∷ 0 ∷ 0 ∷ 0 ∷ 0 ∷ 0 ∷ 0 ∷ 0 ∷ 0 ∷ 0 ∷ 0 ∷ 0 ∷ 0 ∷ 0 ∷ []

-- A cipher that adds sixteen zeros, and a notation of the one sample.
abbrev toy : Crypto
toy = record {
  derive_key = λ secret. some secret;
  has_cipher = λ key. true;
  seal = λ key iv plaintext. plaintext ++ zeros;
  unseal = λ key iv s. some (take (length s - 16) s);
  marshal = λ p. if is_sample p then some (codes "p") else none;
  unmarshal = λ s. some sample;
}

take_all : (s : Bytes) → take (length (s ++ zeros) - 16) (s ++ zeros) ≡ s
unfolding take zeros
take_all s =
    ap (λ n. take n (s ++ zeros)) (omega (arith, length-append s zeros)) ∙ take-append s zeros

zeros-IsByte : All IsByte zeros
unfolding zeros
zeros-IsByte = omega arith

marshal_sound :
    (p : Payload) (s : Bytes) → toy.marshal p ≡ some s → (is_sample p ≡ true) × (s ≡ codes "p")
marshal_sound p s h = ground arith

-- Some of the texts that are valid UTF-8.
abbrev is_ascii : Bytes → Bool
is_ascii [] = true
is_ascii (c ∷ s) = ltb c 128 && is_ascii s

toy-IsLawful : IsLawful is_ascii toy
unfolding zeros
toy-IsLawful = record {
  unseal-seal = λ key iv s h. ap some (take_all s);
  length-seal = λ key iv s. length-append s zeros;
  seal-IsByte = λ key iv s h. All-append IsByte s zeros h zeros-IsByte;
  unmarshal-marshal = λ p s u h. ap some (sym (is_sample_sound p (marshal_sound p s h).0));
  marshal-IsByte = λ p s h. subst (All IsByte) (sym (marshal_sound p s h).1) (omega arith, tt);
  marshal_long = λ p s h. omega (arith, ap length (marshal_sound p s h).1);
}

abbrev sample_token : Bytes
sample_token = codes "BwcHBwcHBwcHBwcHAAAAAAAAAAAAAAAAAAAAAHA"

sealed :
    encrypt toy sample [] (some (7 ∷ 7 ∷ 7 ∷ 7 ∷ 7 ∷ 7 ∷ 7 ∷ 7 ∷ 7 ∷ 7 ∷ 7 ∷ 7 ∷ []))
    ≡ inr sample_token
unfolding encrypt take drop encode_base64 letter zeros
sealed = refl

decrypt-encrypt_example : decrypt toy sample_token [] (pos 100) ≡ inr sample
unfolding gtb
decrypt-encrypt_example =
    decrypt-encrypt is_ascii toy sample [] (7 ∷ 7 ∷ 7 ∷ 7 ∷ 7 ∷ 7 ∷ 7 ∷ 7 ∷ 7 ∷ 7 ∷ 7 ∷ 7 ∷ [])
      sample_token (pos 100) toy-IsLawful
      (refl, refl, refl, refl, refl, refl, refl, omega arith, omega arith) (omega arith) refl refl
      sealed

decrypt_one_spelling_example : sample_token ≡ sample_token
decrypt_one_spelling_example =
    decrypt_one_spelling toy sample_token sample_token [] (pos 100) (pos 100) sample sample
      decrypt-encrypt_example decrypt-encrypt_example refl

-- The same bytes with a line feed in the text are refused.
respelled : decrypt toy (10 ∷ sample_token) [] (pos 100) ≡ inl bad_encoding
unfolding decrypt decode_base64 read_letters six_bits join_letters encode_base64 letter
respelled = refl

empty_refused : validate_csrf_token [] [] ≡ false
unfolding validate_csrf_token
empty_refused = refl
