-- ===== src/Http/Parser.antt =====
-- The request parser: src/stats/http/RequestParser.h and RequestParser.cpp. A call of `consume`
-- has one of five outcomes: `indeterminate` with the new parser, `good`, `bad`, a call of `back()`
-- on an empty vector, or an overflow of an `int`; the last two are undefined in C++.
pub mod Chunks
pub mod WellFormed
pub mod Print
mod RequestLine
mod Fields
pub mod RoundTrip
use iqlogger.Common.{
  ℕ, ◌+◌, ◌-◌, ◌*◌, ◌^◌, ltb, Bool, true, false, not, ◌&&◌, ◌||◌, List, [], ◌∷◌, ◌++◌, Bytes, ◌==◌,
  if◌then◌else◌,
}
use iqlogger.Http.Request.{Header, Request, is_char, is_ctl, is_tspecial, is_digit, is_token}

pub data State : Type 0 where
  method_start method uri : State
  http_version_h http_version_t_1 http_version_t_2 http_version_p http_version_slash : State
  http_version_major_start http_version_major http_version_minor_start http_version_minor : State
  expecting_newline_1 header_line_start header_lws header_name : State
  space_before_header_value header_value expecting_newline_2 expecting_newline_3 : State

-- The parser's state, and the request that each call is handed by reference.
pub record Parser : Type 0 where
  pub state : State
  pub req : Request

pub data Outcome : Type 0 where
  indeterminate : Parser → Outcome
  good : Parser → Outcome
  bad : Parser → Outcome
  undefined : Outcome
  overflow : Outcome

abbrev pub goto : State → Parser → Outcome
goto s p = indeterminate (record p { state = s })

abbrev pub push_method : ℕ → Parser → Parser
push_method c p = record p { req = record req { method = req.method ++ (c ∷ []) } }
  where
    open p use {req}

abbrev pub push_uri : ℕ → Parser → Parser
push_uri c p = record p { req = record req { uri = req.uri ++ (c ∷ []) } }
  where
    open p use {req}

-- The largest `int`.
abbrev pub int_max : ℕ
int_max = 2 ^ 31 - 1

-- `n * 10 + input - '0'` in `int`, handed on.
unfoldable pub with_digit : ℕ → ℕ → (ℕ → Outcome) → Outcome
with_digit n input k =
    if ltb int_max (n * 10 + input) then overflow else k (n * 10 + (input - b'0'))

abbrev pub set_major : ℕ → Parser → Parser
set_major n p = record p { req = record req { http_version_major = n } }
  where
    open p use {req}

abbrev pub set_minor : ℕ → Parser → Parser
set_minor n p = record p { req = record req { http_version_minor = n } }
  where
    open p use {req}

-- `push_back(Header())` and `back().name.push_back(c)`.
abbrev pub push_header : ℕ → Parser → Parser
push_header c p = record p {
  req = record req { headers = req.headers ++ (record { name = c ∷ []; value = [] } ∷ []) };
}
  where
    open p use {req}

-- A change of `headers.back()`; false where there is none.
unfoldable pub has_headers : List Header → Bool
has_headers [] = false
has_headers (h ∷ hs) = true

unfoldable pub update_back : (Header → Header) → List Header → List Header
update_back f [] = []
update_back f (h ∷ []) = f h ∷ []
update_back f (h ∷ g ∷ hs) = h ∷ update_back f (g ∷ hs)

abbrev pub add_name : ℕ → Header → Header
add_name c h = record h { name = h.name ++ (c ∷ []) }

abbrev pub add_value : ℕ → Header → Header
add_value c h = record h { value = h.value ++ (c ∷ []) }

-- The parser goes to state `s` after the change of `headers.back()`.
unfoldable pub with_back : (Header → Header) → State → Parser → Outcome
with_back f s p =
    if has_headers req.headers
    then indeterminate
        (record { state = s; req = record req { headers = update_back f req.headers } })
    else undefined
  where
    open p use {req}

-- `if (input == c) m_state = s; else return bad;`
abbrev pub expect : ℕ → State → Parser → ℕ → Outcome
expect c s p input = if input == c then goto s p else bad p

-- Lines 147 to 171, for the first character of a header line.
unfoldable pub consume_line_start : Parser → ℕ → Outcome
consume_line_start p input =
    if input == b'\r'
    then goto expecting_newline_3 p
    else if has_headers p.req.headers && (input == b' ' || input == b'\t')
    then goto header_lws p
    else if not (is_char input) || is_ctl input || is_tspecial input
    then bad p
    else goto header_name (push_header input p)

unfoldable pub consume_lws : Parser → ℕ → Outcome
consume_lws p input =
    if input == b'\r'
    then goto expecting_newline_2 p
    else if input == b' ' || input == b'\t'
    then indeterminate p
    else if is_ctl input
    then bad p
    else with_back (add_value input) header_value p

unfoldable pub consume_name : Parser → ℕ → Outcome
consume_name p input =
    if input == b':'
    then goto space_before_header_value p
    else if not (is_char input) || is_ctl input || is_tspecial input
    then bad p
    else with_back (add_name input) p.state p

unfoldable pub consume_value : Parser → ℕ → Outcome
consume_value p input =
    if input == b'\r'
    then goto expecting_newline_2 p
    else if is_ctl input
    then bad p
    else with_back (add_value input) p.state p

unfoldable pub consume_method : Parser → ℕ → Outcome
consume_method p input =
    if input == b' '
    then goto uri p
    else if not (is_char input) || is_ctl input || is_tspecial input
    then bad p
    else indeterminate (push_method input p)

unfoldable pub consume_uri : Parser → ℕ → Outcome
consume_uri p input =
    if input == b' '
    then goto http_version_h p
    else if is_ctl input
    then bad p
    else indeterminate (push_uri input p)

unfoldable pub consume_major : Parser → ℕ → Outcome
unfolding with_digit
consume_major p input =
    if input == b'.'
    then goto http_version_minor_start p
    else if is_digit input
    then with_digit p.req.http_version_major input (λ n. indeterminate (set_major n p))
    else bad p

unfoldable pub consume_minor : Parser → ℕ → Outcome
unfolding with_digit
consume_minor p input =
    if input == b'\r'
    then goto expecting_newline_1 p
    else if is_digit input
    then with_digit p.req.http_version_minor input (λ n. indeterminate (set_minor n p))
    else bad p

-- The switch of `consume`.
unfoldable pub consume_in : State → Parser → ℕ → Outcome
unfolding with_digit consume_line_start consume_lws consume_name consume_value consume_method
    consume_uri consume_major consume_minor
consume_in method_start p input =
    if not (is_char input) || is_ctl input || is_tspecial input
    then bad p
    else goto method (push_method input p)
consume_in method p input = consume_method p input
consume_in uri p input = consume_uri p input
consume_in http_version_h p input = expect b'H' http_version_t_1 p input
consume_in http_version_t_1 p input = expect b'T' http_version_t_2 p input
consume_in http_version_t_2 p input = expect b'T' http_version_p p input
consume_in http_version_p p input = expect b'P' http_version_slash p input
consume_in http_version_slash p input =
    if input == b'/'
    then goto http_version_major_start
        (record p { req = record req { http_version_major = 0; http_version_minor = 0 } })
    else bad p
  where
    open p use {req}
consume_in http_version_major_start p input =
    if is_digit input
    then with_digit p.req.http_version_major input (λ n. goto http_version_major (set_major n p))
    else bad p
consume_in http_version_major p input = consume_major p input
consume_in http_version_minor_start p input =
    if is_digit input
    then with_digit p.req.http_version_minor input (λ n. goto http_version_minor (set_minor n p))
    else bad p
consume_in http_version_minor p input = consume_minor p input
consume_in expecting_newline_1 p input = expect b'\n' header_line_start p input
consume_in header_line_start p input = consume_line_start p input
consume_in header_lws p input = consume_lws p input
consume_in header_name p input = consume_name p input
consume_in space_before_header_value p input = expect b' ' header_value p input
consume_in header_value p input = consume_value p input
consume_in expecting_newline_2 p input = expect b'\n' header_line_start p input
consume_in expecting_newline_3 p input = if input == b'\n' then good p else bad p

abbrev pub consume : Parser → ℕ → Outcome
consume p = consume_in p.state p

-- What `parse` returns: the result and the input behind the last byte read.
pub record Parsed : Type 0 where
  pub result : Outcome
  pub rest : Bytes

-- The loop of `parse`, after one call of `consume`: `again` is the loop on what follows.
unfoldable pub parse_next : Outcome → Bytes → (Parser → Parsed) → Parsed
parse_next (indeterminate q) rest again = again q
parse_next (good q) rest again = record { result = good q; rest = rest }
parse_next (bad q) rest again = record { result = bad q; rest = rest }
parse_next undefined rest again = record { result = undefined; rest = rest }
parse_next overflow rest again = record { result = overflow; rest = rest }

unfoldable pub parse : Bytes → Parser → Parsed
unfolding parse_next
parse [] p = record { result = indeterminate p; rest = [] }
parse (c ∷ cs) p = parse_next (consume p c) cs (parse cs)

-- The constructor; the numbers of a fresh `Request` are not set before the `/` of `HTTP/`.
abbrev pub initial : Parser
initial = record {
  state = method_start;
  req = record {
    method = [];
    uri = [];
    http_version_major = 0;
    http_version_minor = 0;
    headers = [];
  };
}

unfoldable pub reset : Parser → Parser
reset p = record p { state = method_start }
