-- ===== src/Http/Parser/Print.antt =====
-- A printed request: the form of a request in HTTP/1.x, one line for each header and no line
-- continued. It describes what the parser is meant to accept.
use iqlogger.Common.{
  ℕ, ◌+◌, ◌-◌, ◌*◌, ◌≤◌, ltb, ◌≡◌, ◌≢◌, true, false, not, ◌||◌, List, [], ◌∷◌, ◌++◌, Bytes, ◌==◌,
  All, arith,
}
use iqlogger.Common.Decimal.{number, number-le}
use iqlogger.Http.Request.{Header, Request, is_char, is_ctl, is_tspecial, is_digit, is_token}
use iqlogger.Http.Parser.{State, Parser, int_max}
use iqlogger.Http.Parser.WellFormed.{IsToken, IsUriChar, IsText}

-- A request line, the numbers by their digits.
pub record Line : Type 0 where
  pub method : Bytes
  pub uri : Bytes
  pub major : Bytes
  pub minor : Bytes

abbrev pub IsDigit : ℕ → Type 0
IsDigit c = is_digit c ≡ true

pub record IsLine (l : Line) : Type 0 where
  pub method_named : l.method ≢ []
  pub method_token : All IsToken l.method
  pub uri_chars : All IsUriChar l.uri
  pub major_some : l.major ≢ []
  pub major_digits : All IsDigit l.major
  pub minor_some : l.minor ≢ []
  pub minor_digits : All IsDigit l.minor
  pub major_small : number 0 l.major + b'0' ≤ int_max
  pub minor_small : number 0 l.minor + b'0' ≤ int_max

unfoldable pub print_field : Header → Bytes → Bytes
print_field h rest = h.name ++ (b':' ∷ b' ' ∷ (h.value ++ (b'\r' ∷ b'\n' ∷ rest)))

unfoldable pub print_fields : List Header → Bytes → Bytes
print_fields [] rest = b'\r' ∷ b'\n' ∷ rest
print_fields (h ∷ hs) rest = print_field h (print_fields hs rest)

unfoldable pub print_version : Line → Bytes → Bytes
print_version l rest =
    b'H' ∷ b'T' ∷ b'T' ∷ b'P' ∷ b'/' ∷ (l.major ++ (b'.' ∷ (l.minor ++ (b'\r' ∷ b'\n' ∷ rest))))

unfoldable pub print : Line → List Header → Bytes → Bytes
print l hs rest = l.method ++ (b' ' ∷ (l.uri ++ (b' ' ∷ print_version l (print_fields hs rest))))

-- The request that the printed text stands for.
abbrev pub request_of : Line → List Header → Request
request_of l hs = record {
  method = l.method;
  uri = l.uri;
  http_version_major = number 0 l.major;
  http_version_minor = number 0 l.minor;
  headers = hs;
}

abbrev pub at : State → Request → Parser
at s r = record { state = s; req = r }

-- A token character passes the test in front of `bad`, and is no delimiter.
pub token_tests :
    (c : ℕ)
    → IsToken c
    → ((not (is_char c) || is_ctl c || is_tspecial c) ≡ false)
      × ((c == b' ') ≡ false)
      × ((c == b'\t') ≡ false)
      × ((c == b':') ≡ false)
      × ((c == b'\r') ≡ false)
unfolding is_token is_ctl is_tspecial is_char
token_tests c h = (ground arith, ground arith, ground arith, ground arith, ground arith)

pub text-ne-cr : (c : ℕ) → IsText c → (c == b'\r') ≡ false
unfolding is_ctl
text-ne-cr c h = ground arith

pub digit_tests : (c : ℕ) → IsDigit c → ((c == b'.') ≡ false) × ((c == b'\r') ≡ false)
unfolding is_digit
digit_tests c h = (ground arith, ground arith)

-- A digit of a number that is small enough does not overflow.
pub digit_fits :
    (acc d : ℕ) (ds : Bytes)
    → IsDigit d
    → number acc (d ∷ ds) + b'0' ≤ int_max
    → ltb int_max (acc * 10 + d) ≡ false
unfolding number is_digit
digit_fits acc d ds h l = ground (arith, number-le (acc * 10 + (d - b'0')) ds)
