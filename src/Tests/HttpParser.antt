-- ===== src/Tests/HttpParser.antt =====
-- The request parser on a short request.
use iqlogger.Common.{◌≡◌, refl, List, [], ◌∷◌, codes, arith, All}
use iqlogger.Common.Decimal.{number}
use iqlogger.Http.Request.{Header, is_token, is_char, is_ctl, is_tspecial, is_digit}
use iqlogger.Http.Parser.{good, expecting_newline_3, parse, consume_in, initial}
use iqlogger.Http.Parser.Print.{Line, IsLine, print, request_of}
use iqlogger.Http.Parser.WellFormed.{
  IsField, IsWellFormed, Ensures, parse-IsWellFormed, initial-IsWellFormed,
}
use iqlogger.Http.Parser.RoundTrip.{parse-print}

abbrev pub line : Line
line = record { method = codes "GET"; uri = codes "/stats"; major = codes "1"; minor = codes "1" }

abbrev pub fields : List Header
fields = record { name = codes "Host"; value = codes "a" } ∷ []

pub line-IsLine : IsLine line
unfolding is_token is_char is_ctl is_tspecial is_digit number
line-IsLine = record {
  method_named = ground arith;
  method_token = (refl, (refl, (refl, tt)));
  uri_chars = (
    (refl, refl),
    ((refl, refl), ((refl, refl), ((refl, refl), ((refl, refl), ((refl, refl), tt))))),
  );
  major_some = ground arith;
  major_digits = (refl, tt);
  minor_some = ground arith;
  minor_digits = (refl, tt);
  major_small = omega arith;
  minor_small = omega arith;
}

pub fields-IsField : All IsField fields
unfolding is_token is_char is_ctl is_tspecial
fields-IsField = ((ground arith, (refl, (refl, (refl, (refl, tt)))), (refl, tt)), tt)

parse-print_example : parse (print line fields (codes "x")) initial ≡ record {
  result = good (record { state = expecting_newline_3; req = request_of line fields });
  rest = codes "x";
}
parse-print_example = parse-print line fields (codes "x") line-IsLine fields-IsField

parse-IsWellFormed_example : Ensures IsWellFormed (parse (codes "GET / HTTP/1.0") initial).result
parse-IsWellFormed_example =
    parse-IsWellFormed (codes "GET / HTTP/1.0") initial initial-IsWellFormed

-- The parser takes the version `1` `1`, and stops at a method that is no token.
parse_runs :
    ((parse (codes "G(") initial).rest ≡ []) × ((parse (codes "(GET") initial).rest ≡ codes "GET")
unfolding parse consume_in is_char is_ctl is_tspecial
parse_runs = (refl, refl)
