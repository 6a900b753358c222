-- ===== src/Http/Parser/RequestLine.antt =====
-- How the parser reads the request line.
use iqlogger.Common.{
  ℕ, ◌+◌, ◌≤◌, ◌≡◌, ◌≢◌, refl, ◌∙◌, [], ◌∷◌, ◌++◌, append-nil, append_assoc, Bytes, All,
}
use iqlogger.Common.Decimal.{number}
use iqlogger.Http.Request.{Request}
use iqlogger.Http.Parser.{
  method, uri, http_version_h, http_version_major, http_version_minor, header_line_start,
  consume_in, parse, initial, int_max, with_digit,
}
use iqlogger.Http.Parser.WellFormed.{IsToken, IsUriChar}
use iqlogger.Http.Parser.Print.{
  Line, IsDigit, IsLine, print_version, at, token_tests, digit_tests, digit_fits,
}

pub parse_method :
    (m rest : Bytes) (r : Request)
    → All IsToken m
    → parse (m ++ rest) (at method r) ≡ parse rest (at method (record r { method = r.method ++ m }))
unfolding parse consume_in
parse_method [] rest r t = rw append-nil
parse_method (c ∷ m) rest r t =
    rw ((token_tests c t.0).1, (token_tests c t.0).0)
      (parse_method m rest (record r { method = r.method ++ (c ∷ []) }) t.1 ∙ rw append_assoc)

pub parse_uri :
    (u rest : Bytes) (r : Request)
    → All IsUriChar u
    → parse (u ++ rest) (at uri r) ≡ parse rest (at uri (record r { uri = r.uri ++ u }))
unfolding parse consume_in
parse_uri [] rest r t = rw append-nil
parse_uri (c ∷ u) rest r t =
    rw (t.0.1, t.0.0)
      (parse_uri u rest (record r { uri = r.uri ++ (c ∷ []) }) t.1 ∙ rw append_assoc)

pub parse_uri_line :
    (u rest : Bytes) (r : Request)
    → All IsUriChar u
    → parse (u ++ (b' ' ∷ rest)) (at uri r)
      ≡ parse rest (at http_version_h (record r { uri = r.uri ++ u }))
unfolding parse consume_in
parse_uri_line u rest r t = parse_uri u (b' ' ∷ rest) r t ∙ refl

pub parse_major :
    (ds rest : Bytes) (r : Request)
    → All IsDigit ds
    → number r.http_version_major ds + b'0' ≤ int_max
    → parse (ds ++ rest) (at http_version_major r)
      ≡ parse rest
          (at http_version_major (record r { http_version_major = number r.http_version_major ds }))
unfolding parse consume_in number
parse_major [] rest r t l = refl
parse_major (d ∷ ds) rest r t l =
    rw ((digit_tests d t.0).0, t.0, with_digit, digit_fits r.http_version_major d ds t.0 l)
      (parse_major ds rest _ t.1 l)

pub parse_minor :
    (ds rest : Bytes) (r : Request)
    → All IsDigit ds
    → number r.http_version_minor ds + b'0' ≤ int_max
    → parse (ds ++ rest) (at http_version_minor r)
      ≡ parse rest
          (at http_version_minor (record r { http_version_minor = number r.http_version_minor ds }))
unfolding parse consume_in number
parse_minor [] rest r t l = refl
parse_minor (d ∷ ds) rest r t l =
    rw ((digit_tests d t.0).1, t.0, with_digit, digit_fits r.http_version_minor d ds t.0 l)
      (parse_minor ds rest _ t.1 l)

-- `HTTP/major.minor` and the end of the line, the first digits taken apart.
pub parse_version_digits :
    (d e : ℕ) (ds es rest : Bytes) (r : Request)
    → All IsDigit (d ∷ ds)
    → All IsDigit (e ∷ es)
    → number 0 (d ∷ ds) + b'0' ≤ int_max
    → number 0 (e ∷ es) + b'0' ≤ int_max
    → parse
        (b'H' ∷ b'T' ∷ b'T' ∷ b'P' ∷ b'/' ∷ d ∷ (ds ++ (b'.' ∷ e ∷ (es ++ (b'\r' ∷ b'\n' ∷ rest)))))
        (at http_version_h r)
      ≡ parse rest (
          at header_line_start (record r {
            http_version_major = number 0 (d ∷ ds);
            http_version_minor = number 0 (e ∷ es);
          }))
unfolding parse consume_in number
parse_version_digits d e ds es rest r t u l m =
    rw (t.0, with_digit, digit_fits 0 d ds t.0 l)
      (parse_major ds _ _ t.1 l
        ∙ rw (u.0, with_digit, digit_fits 0 e es u.0 m)
            (parse_minor es (b'\r' ∷ b'\n' ∷ rest) _ u.1 m ∙ refl))

pub parse_version :
    (l : Line) (rest : Bytes) (r : Request)
    → IsLine l
    → parse (print_version l rest) (at http_version_h r)
      ≡ parse rest (
          at header_line_start (record r {
            http_version_major = number 0 l.major;
            http_version_minor = number 0 l.minor;
          }))
unfolding print_version
parse_version l rest r v =
    go l.major l.minor v.major_some v.minor_some v.major_digits v.minor_digits v.major_small
      v.minor_small
  where
    go :
        (ds es : Bytes)
        → ds ≢ []
        → es ≢ []
        → All IsDigit ds
        → All IsDigit es
        → number 0 ds + b'0' ≤ int_max
        → number 0 es + b'0' ≤ int_max
        → parse
            (b'H' ∷ b'T' ∷ b'T' ∷ b'P' ∷ b'/' ∷ (ds ++ (b'.' ∷ (es ++ (b'\r' ∷ b'\n' ∷ rest)))))
            (at http_version_h r)
          ≡ parse rest (
              at header_line_start
                (record r { http_version_major = number 0 ds; http_version_minor = number 0 es }))
    go [] es n m t u _ _ = absurd (n refl)
    go (d ∷ ds) [] n m t u _ _ = absurd (m refl)
    go (d ∷ ds) (e ∷ es) n m t u k l = parse_version_digits d e ds es rest r t u k l

pub parse_method_line :
    (m rest : Bytes)
    → m ≢ []
    → All IsToken m
    → parse (m ++ (b' ' ∷ rest)) initial ≡ parse rest (at uri (record initial.req { method = m }))
unfolding parse consume_in
parse_method_line [] rest n t = absurd (n refl)
parse_method_line (c ∷ m) rest n t =
    rw ((token_tests c t.0).0) (parse_method m (b' ' ∷ rest) _ t.1 ∙ refl)
