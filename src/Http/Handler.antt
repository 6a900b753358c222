-- ===== src/Http/Handler.antt =====
-- The request handler: src/stats/http/RequestHandler.cpp. What the handler writes for `/stats`, a
-- JSON text that Boost makes of the counters, is given.
pub mod Decode
pub mod Answers
use iqlogger.Common.{
  ℕ, ◌+◌, ◌-◌, ◌*◌, ◌%◌, Bool, true, false, not, ◌&&◌, ◌||◌, Option, none, some, List, [], ◌∷◌,
  Bytes, codes, leb, ◌==◌, bytes_eq, if◌then◌else◌,
}
use mathlib.Core.Option
use iqlogger.Http.Request.{Request}
use iqlogger.Http.Reply.{
  Reply, ok, bad_request, not_found, stock_reply, reply_headers, extension_to_type,
}

-- `isspace` of the classic locale.
unfoldable pub is_space : ℕ → Bool
is_space c = c == b' ' || leb 9 c && leb c 13

unfoldable pub hex_digit : ℕ → Option ℕ
hex_digit c =
    if leb b'0' c && leb c b'9'
    then some (c - b'0')
    else if leb b'a' c && leb c b'f'
    then some (c - b'a' + 10)
    else if leb b'A' c && leb c b'F'
    then some (c - b'A' + 10)
    else none

-- The second character, behind a digit: it is read if it is a digit; otherwise the number is the
-- first digit alone, unless the two are the prefix `0x`, behind which a digit is missing.
unfoldable pub second_digit : ℕ → ℕ → Option ℕ → Option ℕ
second_digit v d (some w) = some (v * 16 + w)
second_digit v d none = if v == 0 && (d == b'x' || d == b'X') then none else some v

unfoldable pub first_digit : ℕ → Option ℕ → Option ℕ
unfolding second_digit hex_digit
first_digit d none = none
first_digit d (some v) = second_digit v d (hex_digit d)

-- `is >> std::hex >> value` on a string of the two characters, and `static_cast<char>(value)`:
-- leading white space and a sign are accepted, and what follows a number is not looked at.
unfoldable pub read_hex : ℕ → ℕ → Option ℕ
unfolding first_digit is_space
read_hex c d =
    if is_space c || c == b'+'
    then hex_digit d
    else if c == b'-'
    then Option.map (λ w. (256 - w) % 256) (hex_digit d)
    else first_digit d (hex_digit c)

-- `out += static_cast<char>(value)`, and the rest.
unfoldable pub escape : Option ℕ → Option Bytes → Option Bytes
escape none rest = none
escape (some v) rest = Option.map (◌∷◌ v) rest

abbrev pub plain : ℕ → ℕ
plain c = if c == b'+' then b' ' else c

-- `none` is false.
unfoldable pub url_decode : Bytes → Option Bytes
unfolding escape read_hex
url_decode [] = some []
url_decode (c ∷ []) = if c == b'%' then none else some (plain c ∷ [])
url_decode (c ∷ a ∷ []) =
    let rest = url_decode (a ∷ []) in if c == b'%' then none else Option.map (◌∷◌ (plain c)) rest
url_decode (c ∷ a ∷ b ∷ cs) =
    let rest = url_decode (a ∷ b ∷ cs) in
    let behind = url_decode cs in
    if c == b'%' then escape (read_hex a b) behind else Option.map (◌∷◌ (plain c)) rest

-- `find("..") != npos`.
unfoldable pub has_dots : Bytes → Bool
has_dots (a ∷ b ∷ cs) = a == b'.' && b == b'.' || has_dots (b ∷ cs)
has_dots _ = false

unfoldable pub is_bad_path : Bytes → Bool
unfolding has_dots
is_bad_path [] = true
is_bad_path (c ∷ cs) = not (c == b'/') || has_dots (c ∷ cs)

module _ (stats : Bytes) where
  unfoldable pub handle_path : Option Bytes → Reply
  unfolding is_bad_path
  handle_path none = stock_reply bad_request
  handle_path (some path) =
      if is_bad_path path
      then stock_reply bad_request
      else if bytes_eq path (codes "/stats")
      then record {
        status = ok;
        headers = reply_headers stats (extension_to_type (codes "json"));
        content = stats;
      }
      else stock_reply not_found

  unfoldable pub handle_request : Request → Reply
  unfolding handle_path
  handle_request req = handle_path (url_decode req.uri)
