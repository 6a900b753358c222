-- ===== src/Http/Parser/Fields.antt =====
-- How the parser reads the header lines, and the empty line behind them.
use iqlogger.Common.{
  ℕ, ◌≡◌, ◌≢◌, refl, ap, ◌∙◌, List, [], ◌∷◌, ◌++◌, append-nil, append_assoc, Bytes, All, arith,
}
use iqlogger.Http.Request.{Header, Request}
use iqlogger.Http.Parser.{
  header_line_start, header_name, header_value, expecting_newline_3, good, add_name, add_value,
  update_back, with_back, consume_in, parse,
}
use iqlogger.Http.Parser.WellFormed.{IsToken, IsText, IsField, has_headers-append}
use iqlogger.Http.Parser.Print.{print_field, print_fields, at, token_tests, text-ne-cr}

update_back-append :
    (f : Header → Header) (hs : List Header) (h : Header)
    → update_back f (hs ++ (h ∷ [])) ≡ hs ++ (f h ∷ [])
unfolding update_back
update_back-append f [] h = refl
update_back-append f (x ∷ []) h = refl
update_back-append f (x ∷ y ∷ hs) h = ap (◌∷◌ x) (update_back-append f (y ∷ hs) h)

pub parse_field_name :
    (n rest : Bytes) (r : Request) (hs : List Header) (h : Header)
    → All IsToken n
    → parse (n ++ rest) (at header_name (record r { headers = hs ++ (h ∷ []) }))
      ≡ parse rest
          (at header_name (record r { headers = hs ++ (record h { name = h.name ++ n } ∷ []) }))
unfolding parse consume_in with_back
parse_field_name [] rest r hs h t = rw append-nil
parse_field_name (c ∷ n) rest r hs h t =
    rw
      (
        (token_tests c t.0).3,
        (token_tests c t.0).0,
        has_headers-append h hs,
        update_back-append (add_name c) hs h,
      )
      (parse_field_name n rest r hs (add_name c h) t.1 ∙ rw append_assoc)

pub parse_field_value :
    (v rest : Bytes) (r : Request) (hs : List Header) (h : Header)
    → All IsText v
    → parse (v ++ rest) (at header_value (record r { headers = hs ++ (h ∷ []) }))
      ≡ parse rest
          (at header_value (record r { headers = hs ++ (record h { value = h.value ++ v } ∷ []) }))
unfolding parse consume_in with_back
parse_field_value [] rest r hs h t = rw append-nil
parse_field_value (c ∷ v) rest r hs h t =
    rw (text-ne-cr c t.0, t.0, has_headers-append h hs, update_back-append (add_value c) hs h)
      (parse_field_value v rest r hs (add_value c h) t.1 ∙ rw append_assoc)

pub parse_value_line :
    (v rest : Bytes) (r : Request) (hs : List Header) (n : Bytes)
    → All IsText v
    → parse
        (b':' ∷ b' ' ∷ (v ++ (b'\r' ∷ b'\n' ∷ rest)))
        (at header_name (record r { headers = hs ++ (record { name = n; value = [] } ∷ []) }))
      ≡ parse rest (
          at header_line_start (record r { headers = hs ++ (record { name = n; value = v } ∷ []) }))
unfolding parse consume_in
parse_value_line v rest r hs n t =
    parse_field_value v (b'\r' ∷ b'\n' ∷ rest) r hs (record { name = n; value = [] }) t ∙ refl

-- The first character of a line begins a new header.
pub parse_field_start :
    (c : ℕ) (rest : Bytes) (r : Request)
    → IsToken c
    → parse (c ∷ rest) (at header_line_start r)
      ≡ parse rest (
          at header_name
            (record r { headers = r.headers ++ (record { name = c ∷ []; value = [] } ∷ []) }))
unfolding parse consume_in
parse_field_start c rest r t = ground (arith, token_tests c t)

pub parse_field :
    (h : Header) (rest : Bytes) (r : Request)
    → IsField h
    → parse (print_field h rest) (at header_line_start r)
      ≡ parse rest (at header_line_start (record r { headers = r.headers ++ (h ∷ []) }))
unfolding print_field
parse_field h rest r f = go h.name f.0 f.1
  where
    go :
        (n : Bytes)
        → n ≢ []
        → All IsToken n
        → parse (n ++ (b':' ∷ b' ' ∷ (h.value ++ (b'\r' ∷ b'\n' ∷ rest)))) (at header_line_start r)
          ≡ parse rest (
              at header_line_start
                (record r { headers = r.headers ++ (record { name = n; value = h.value } ∷ []) }))
    go [] ne t = absurd (ne refl)
    go (c ∷ n) ne t =
        parse_field_start c _ r t.0
        ∙ parse_field_name n _ r r.headers (record { name = c ∷ []; value = [] }) t.1
        ∙ parse_value_line h.value rest r r.headers (c ∷ n) f.2

pub parse_fields :
    (hs : List Header) (rest : Bytes) (r : Request)
    → All IsField hs
    → parse (print_fields hs rest) (at header_line_start r) ≡ record {
      result = good (at expecting_newline_3 (record r { headers = r.headers ++ hs }));
      rest = rest;
    }
unfolding print_fields parse consume_in
parse_fields [] rest r a = rw append-nil
parse_fields (h ∷ hs) rest r a =
    parse_field h (print_fields hs rest) r a.0
    ∙ parse_fields hs rest (record r { headers = r.headers ++ (h ∷ []) }) a.1
    ∙ rw append_assoc
