-- ===== src/Http/Reply.antt =====
-- A reply: src/stats/http/Reply.h, Reply.cpp and MimeTypes.cpp.
use iqlogger.Common.{ℕ, List, [], ◌∷◌, ◌++◌, Bytes, codes, bytes_eq, if◌then◌else◌, length}
use iqlogger.Common.Decimal.{to_string}
use iqlogger.Http.Request.{Header}

pub data Status : Type 0 where
  ok created accepted no_content : Status
  multiple_choices moved_permanently moved_temporarily not_modified : Status
  bad_request unauthorized forbidden not_found : Status
  internal_server_error not_implemented bad_gateway service_unavailable : Status

pub record Reply : Type 0 where
  pub status : Status
  pub headers : List Header
  pub content : Bytes

-- The number of a status.
abbrev pub code_of : Status → ℕ
code_of ok = 200
code_of created = 201
code_of accepted = 202
code_of no_content = 204
code_of multiple_choices = 300
code_of moved_permanently = 301
code_of moved_temporarily = 302
code_of not_modified = 304
code_of bad_request = 400
code_of unauthorized = 401
code_of forbidden = 403
code_of not_found = 404
code_of internal_server_error = 500
code_of not_implemented = 501
code_of bad_gateway = 502
code_of service_unavailable = 503

abbrev crlf : Bytes
crlf = b'\r' ∷ b'\n' ∷ []

-- `status_strings`, without the end of the line.
unfoldable pub status_string : Status → Bytes
status_string ok = codes "HTTP/1.0 200 OK"
status_string created = codes "HTTP/1.0 201 Created"
status_string accepted = codes "HTTP/1.0 202 Accepted"
status_string no_content = codes "HTTP/1.0 204 No Content"
status_string multiple_choices = codes "HTTP/1.0 300 Multiple Choices"
status_string moved_permanently = codes "HTTP/1.0 301 Moved Permanently"
status_string moved_temporarily = codes "HTTP/1.0 302 Moved Temporarily"
status_string not_modified = codes "HTTP/1.0 304 Not Modified"
status_string bad_request = codes "HTTP/1.0 400 Bad Request"
status_string unauthorized = codes "HTTP/1.0 401 Unauthorized"
status_string forbidden = codes "HTTP/1.0 403 Forbidden"
status_string not_found = codes "HTTP/1.0 404 Not Found"
status_string internal_server_error = codes "HTTP/1.0 500 Internal Server Error"
status_string not_implemented = codes "HTTP/1.0 501 Not Implemented"
status_string bad_gateway = codes "HTTP/1.0 502 Bad Gateway"
status_string service_unavailable = codes "HTTP/1.0 503 Service Unavailable"

-- `stock_replies::to_string`.
unfoldable pub stock_content : Status → Bytes
stock_content ok = []
stock_content created =
    codes "<html><head><title>Created</title></head><body><h1>201 Created</h1></body></html>"
stock_content accepted =
    codes "<html><head><title>Accepted</title></head><body><h1>202 Accepted</h1></body></html>"
stock_content no_content =
    codes "<html><head><title>No Content</title></head><body><h1>204 Content</h1></body></html>"
stock_content multiple_choices =
    codes
      "<html><head><title>Multiple Choices</title></head><body><h1>300 Multiple Choices</h1></body></html>"
stock_content moved_permanently =
    codes
      "<html><head><title>Moved Permanently</title></head><body><h1>301 Moved Permanently</h1></body></html>"
stock_content moved_temporarily =
    codes
      "<html><head><title>Moved Temporarily</title></head><body><h1>302 Moved Temporarily</h1></body></html>"
stock_content not_modified =
    codes
      "<html><head><title>Not Modified</title></head><body><h1>304 Not Modified</h1></body></html>"
stock_content bad_request =
    codes
      "<html><head><title>Bad Request</title></head><body><h1>400 Bad Request</h1></body></html>"
stock_content unauthorized =
    codes
      "<html><head><title>Unauthorized</title></head><body><h1>401 Unauthorized</h1></body></html>"
stock_content forbidden =
    codes "<html><head><title>Forbidden</title></head><body><h1>403 Forbidden</h1></body></html>"
stock_content not_found =
    codes "<html><head><title>Not Found</title></head><body><h1>404 Not Found</h1></body></html>"
stock_content internal_server_error =
    codes
      "<html><head><title>Internal Server Error</title></head><body><h1>500 Internal Server Error</h1></body></html>"
stock_content not_implemented =
    codes
      "<html><head><title>Not Implemented</title></head><body><h1>501 Not Implemented</h1></body></html>"
stock_content bad_gateway =
    codes
      "<html><head><title>Bad Gateway</title></head><body><h1>502 Bad Gateway</h1></body></html>"
stock_content service_unavailable =
    codes
      "<html><head><title>Service Unavailable</title></head><body><h1>503 Service Unavailable</h1></body></html>"

-- The headers of every reply: `Content-Length` and `Content-Type`.
abbrev pub reply_headers : Bytes → Bytes → List Header
reply_headers content mime =
    record { name = codes "Content-Length"; value = to_string (length content) }
    ∷ record { name = codes "Content-Type"; value = mime }
    ∷ []

unfoldable pub stock_reply : Status → Reply
stock_reply status =
    let content = stock_content status in
    record {
      status = status;
      headers = reply_headers content (codes "text/html");
      content = content;
    }

-- `MimeType::mappings` and `extension_to_type`.
abbrev pub mappings : List (Bytes × Bytes)
mappings =
    (codes "gif", codes "image/gif")
    ∷ (codes "htm", codes "text/html")
    ∷ (codes "html", codes "text/html")
    ∷ (codes "jpg", codes "image/jpeg")
    ∷ (codes "png", codes "image/png")
    ∷ (codes "json", codes "application/json")
    ∷ []

unfoldable pub find_type : Bytes → List (Bytes × Bytes) → Bytes
find_type extension [] = codes "text/plain"
find_type extension ((e, mime) ∷ ms) = if bytes_eq e extension then mime else find_type extension ms

unfoldable pub extension_to_type : Bytes → Bytes
unfolding find_type
extension_to_type extension = find_type extension mappings

-- The buffers of `to_buffers`, one behind the other as they are sent.
unfoldable pub header_buffers : List Header → Bytes
header_buffers [] = []
header_buffers (h ∷ hs) = h.name ++ (b':' ∷ b' ' ∷ (h.value ++ (crlf ++ header_buffers hs)))

unfoldable pub to_buffers : Reply → Bytes
unfolding header_buffers status_string
to_buffers r = status_string r.status ++ (crlf ++ (header_buffers r.headers ++ (crlf ++ r.content)))
