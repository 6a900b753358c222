-- ===== src/Tests/HttpServer.antt =====
-- The server on requests for the counters.
use iqlogger.Common.{ℕ, ◌≡◌, refl, Bool, not, ◌&&◌, some, List, [], ◌∷◌, Bytes, codes, ◌==◌, arith}
use iqlogger.Http.Request.{Request}
use iqlogger.Http.Reply.{to_buffers}
use iqlogger.Http.Parser.{initial}
use iqlogger.Http.Parser.Print.{print, request_of}
use iqlogger.Http.Handler.{url_decode, handle_request}
use iqlogger.Http.Handler.Decode.{url_encode, hex_char, url_decode-url_encode}
use iqlogger.Http.Connection.{serve, written, serve-print}
use iqlogger.Tests.HttpParser.{line, fields, line-IsLine, fields-IsField}

abbrev safe : ℕ → Bool
safe c = not (c == b'%') && not (c == b'+')

url_encode_run : url_encode safe (codes "a+b") ≡ codes "a%2bb"
unfolding url_encode hex_char
url_encode_run = refl

url_decode-url_encode_example : url_decode (url_encode safe (codes "/st%")) ≡ some (codes "/st%")
url_decode-url_encode_example =
    url_decode-url_encode safe (codes "/st%") (λ c e. ground arith)
      (omega arith, (omega arith, (omega arith, (omega arith, tt))))

abbrev request : Request
request = request_of line fields

abbrev blocks : List Bytes
blocks = codes "GET /st" ∷ codes "ats HTTP/1.1\r\nHost: a\r\n" ∷ codes "\r\nx" ∷ []

serve-print_example :
    serve (codes "{}") blocks initial ≡ written (to_buffers (handle_request (codes "{}") request))
unfolding print iqlogger.Http.Parser.Print.print_version iqlogger.Http.Parser.Print.print_fields
    iqlogger.Http.Parser.Print.print_field
serve-print_example =
    serve-print (codes "{}") blocks line fields (codes "x") line-IsLine fields-IsField refl
