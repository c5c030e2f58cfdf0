-- ===== src/Downloads/Tests.antt =====
-- A link that leads to a file, and a name that loses its quotes.
use goblin_ftp.Base.{
  ℕ, ◌≡◌, refl, true, false, [], ◌∷◌, Bytes, codes, bytes_has_eq, none, some, inr, arith,
}
use goblin_ftp.Base.Ints.{pos, gtb}
use goblin_ftp.Base.Map.{lookup}
use goblin_ftp.Text.{path_base, or_slash, after_slash, trim_right, contains}
use goblin_ftp.Text.Base64.{
  encode_base64, decode_base64, letter, six_bits, read_letters, join_letters,
}
use goblin_ftp.Text.Decimal.{
  itoa, digits, format_int, parse_int, parse_uint, read_digits, in_range_pos,
}
use goblin_ftp.Text.Cut.{cut, split_n, hex, hex_digit}
use goblin_ftp.Remote.{Client, found}
use goblin_ftp.Auth.Session
use goblin_ftp.Auth.Session.{client}
use goblin_ftp.Auth.Store
use goblin_ftp.Auth.Store.{Store, new_store, empty_session}
use goblin_ftp.Tokens.{
  compute_hmac, signed_message, issue_token, open_token, check_parts, validate_token,
}
use goblin_ftp.Downloads.{
  Stream, sanitize_filename, known_length, issue_download_token, open_link, stat_refusal,
  stream_file, download_file,
}
use goblin_ftp.Downloads.Links.{
  IsLink, IsHonest, open_link-issue_download_token, download_file_sound,
}

quoted : sanitize_filename (codes "a\"b\nc") ≡ codes "abc"
unfolding sanitize_filename
quoted = refl

abbrev toy_mac : Bytes → Bytes → Bytes
toy_mac secret message = 7 ∷ 200 ∷ []

abbrev filled : Store
filled = record (new_store 50) {
  objects = λ p. record empty_session {
    download_key = codes "k";
    expires_at = 90;
    values = (codes "client", client 4) ∷ [];
  };
  next = 1;
  by_download_key = (codes "k", 0) ∷ [];
}

-- The state is the content of the one file.
abbrev server : ℕ → Client Bytes
server at = record {
  list = λ r p. (r, inr []);
  stat = λ r p.
      (r, found (record { name = codes "a"; size = pos 3; is_dir = false; mod_time = pos 0 }));
  make_dir = λ r p. (r, none);
  delete = λ r p. (r, none);
  rename = λ r p q. (r, none);
  chmod = λ r p m. (r, none);
  download = λ r p. (r, inr (record { content = r; read_failed = false; close_failed = true }));
  upload = λ r p reader. (reader.content, none);
}

abbrev token : Bytes
token = codes "azpMMkU6MTAwOjA3Yzg"

-- Close fails, and the browser has been told the length.
abbrev cut_off : Stream
cut_off = record {
  filename = codes "a";
  content = codes "abc";
  content_length = some (pos 3);
  failed = true;
  aborts = false;
}

issued : issue_download_token toy_mac [] (filled.objects 0) (codes "/a") (pos 100) ≡ inr token
unfolding issue_download_token issue_token signed_message compute_hmac encode_base64 letter
    format_int itoa digits hex hex_digit
issued = refl

streamed :
    (download_file server (λ s. s) toy_mac [] (codes "abc") filled token (pos 100) 80 false).1
    ≡ inr cut_off
unfolding download_file open_link stream_file stat_refusal validate_token decode_base64 read_letters
    six_bits join_letters check_parts split_n cut compute_hmac hex hex_digit signed_message
    open_token parse_int parse_uint read_digits in_range_pos gtb Store.get_by_download_key lookup
    Session.get sanitize_filename known_length path_base or_slash after_slash trim_right contains
streamed = refl

live : Store.get_by_download_key filled (codes "k") 80 ≡ some 0
unfolding Store.get_by_download_key lookup
live = refl

open_link-issue_download_token_example :
    open_link toy_mac [] filled token (pos 100) 80 ≡ inr (0, (4, codes "/a"))
unfolding gtb Session.get lookup
open_link-issue_download_token_example =
    open_link-issue_download_token toy_mac [] (λ key s. (omega arith, (omega arith, tt))) filled 0 4
      (codes "/a") token (pos 100) (pos 100) 80 (omega arith, tt) (omega arith, tt)
      (omega arith, (omega arith, tt)) (omega arith) refl live refl issued

download_file_sound_example :
    (link : ℕ × (ℕ × Bytes)) × IsLink toy_mac [] filled token (pos 100) 80 link.0 link.1.0 link.1.1
    × IsHonest toy_mac [] server (λ s. s) (codes "abc") link.1.0 link.1.1 false cut_off
download_file_sound_example =
    download_file_sound toy_mac [] server (λ s. s) (codes "abc") filled token (pos 100) 80 false
      cut_off streamed
