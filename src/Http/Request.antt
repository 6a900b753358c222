-- ===== src/Http/Request.antt =====
-- A request, src/stats/http/Request.h and Header.h, and the character classes at the end of
-- src/stats/http/RequestParser.cpp. A character is its byte, 0 to 255; `char` is signed on the
-- platforms that the program is built for, so the bytes from 128 on are negative there.
use iqlogger.Common.{ℕ, Bool, not, ◌&&◌, ◌||◌, List, Bytes, leb, ◌==◌}

pub record Header : Type 0 where
  pub name : Bytes
  pub value : Bytes

pub record Request : Type 0 where
  pub method : Bytes
  pub uri : Bytes
  pub http_version_major : ℕ
  pub http_version_minor : ℕ
  pub headers : List Header

-- As a signed number, a byte from 128 on is below 0.
unfoldable pub is_char : ℕ → Bool
is_char c = leb c 127

unfoldable pub is_ctl : ℕ → Bool
is_ctl c = leb c 31 || c == 127

unfoldable pub is_tspecial : ℕ → Bool
is_tspecial c =
    c == b'('
    || c == b')'
    || c == b'<'
    || c == b'>'
    || c == b'@'
    || c == b','
    || c == b';'
    || c == b':'
    || c == b'\\'
    || c == b'"'
    || c == b'/'
    || c == b'['
    || c == b']'
    || c == b'?'
    || c == b'='
    || c == b'{'
    || c == b'}'
    || c == b' '
    || c == b'\t'

unfoldable pub is_digit : ℕ → Bool
is_digit c = leb b'0' c && leb c b'9'

-- The test in front of the three `bad` results for a method or a header name.
unfoldable pub is_token : ℕ → Bool
is_token c = not (not (is_char c) || is_ctl c || is_tspecial c)
