-- ===== src/Http/Parser/RoundTrip.antt =====
-- Printing a request and parsing it again.
use iqlogger.Common.{◌≡◌, ◌∙◌, List, Bytes, All}
use iqlogger.Http.Request.{Header}
use iqlogger.Http.Parser.{expecting_newline_3, good, parse, initial}
use iqlogger.Http.Parser.WellFormed.{IsField}
use iqlogger.Http.Parser.Print.{Line, IsLine, print_fields, print, request_of}
use iqlogger.Http.Parser.RequestLine.{parse_method_line, parse_uri_line, parse_version}
use iqlogger.Http.Parser.Fields.{parse_fields}

-- A request that is printed in the form of HTTP/1.x, with a line and headers that are well
-- formed and version numbers that stay in the range of `int`, is parsed as that request, whatever follows it: the parser answers `good`, leaves what
-- follows unread, and the method, URI, version numbers and headers are those of the text.
pub parse-print :
    (l : Line) (hs : List Header) (rest : Bytes)
    → IsLine l
    → All IsField hs
    → parse (print l hs rest) initial ≡ record {
      result = good (record { state = expecting_newline_3; req = request_of l hs });
      rest = rest;
    }
unfolding print
parse-print l hs rest v a =
    parse_method_line l.method _ v.method_named v.method_token
    ∙ parse_uri_line l.uri _ (record initial.req { method = l.method }) v.uri_chars
    ∙ parse_version l (print_fields hs rest) _ v
    ∙ parse_fields hs rest _ a
