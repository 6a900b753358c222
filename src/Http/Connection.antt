-- ===== src/Http/Connection.antt =====
-- One connection: src/stats/http/Connection.cpp. The blocks that the socket delivers are given, in
-- their order; a reply is written and the connection is shut down when the parser has an answer.
use iqlogger.Common.{
  append_assoc, ◌≡◌, refl, sym, ap, ◌∙◌, List, [], ◌∷◌, ◌++◌, Bytes, All, some, codes, bytes_eq,
  length, joined,
}
use iqlogger.Http.Request.{Header}
use iqlogger.Http.Reply.{bad_request, stock_reply, to_buffers, extension_to_type}
use iqlogger.Common.Decimal.{to_string}
use iqlogger.Http.Handler.{url_decode, handle_request}
use iqlogger.Http.Parser.{
  Parser, Outcome, indeterminate, good, bad, undefined, overflow, Parsed, parse, initial,
}
use iqlogger.Http.Parser.Chunks.{resume, parse-append}
use iqlogger.Http.Parser.WellFormed.{IsField}
use iqlogger.Http.Parser.Print.{Line, IsLine, print, request_of}
use iqlogger.Http.Parser.RoundTrip.{parse-print}

-- Still reading, with the parser so far; or what was written to the socket; or undefined behaviour.
pub data Served : Type 0 where
  reading : Parser → Served
  written : Bytes → Served
  fault : Served

module _ (stats : Bytes) where
  -- The handler of `async_read_some`, after a call of `parse`: `next` is the next `do_read`.
  unfoldable pub on_result : Outcome → (Parser → Served) → Served
  on_result (indeterminate q) next = next q
  on_result (good q) next = written (to_buffers (handle_request stats q.req))
  on_result (bad q) next = written (to_buffers (stock_reply bad_request))
  on_result undefined next = fault
  on_result overflow next = fault

  unfoldable pub serve : List Bytes → Parser → Served
  unfolding on_result
  serve [] p = reading p
  serve (block ∷ blocks) p = on_result (parse block p).result (serve blocks)

  on_result-resume :
      (o : Outcome) (left rest : Bytes) (next : Parser → Served)
      → ((q : Parser) → next q ≡ on_result (parse rest q).result reading)
      → on_result o next
        ≡ on_result (resume (record { result = o; rest = left }) rest).result reading
  unfolding on_result
  on_result-resume (indeterminate q) left rest next ih = ih q
  on_result-resume (good q) left rest next ih = refl
  on_result-resume (bad q) left rest next ih = refl
  on_result-resume undefined left rest next ih = refl
  on_result-resume overflow left rest next ih = refl

  serve-joined :
      (blocks : List Bytes) (p : Parser)
      → serve blocks p ≡ on_result (parse (joined blocks) p).result reading
  unfolding serve
  serve-joined [] p = (unfold parse on_result in refl)
  serve-joined (b ∷ bs) p =
      on_result-resume (parse b p).result (parse b p).rest (joined bs) (serve bs) (serve-joined bs)
      ∙ ap (λ (r : Parsed). on_result r.result reading) (sym (parse-append b (joined bs) p))

  -- A request that is printed in the form of HTTP/1.x, well formed and with version numbers in the
  -- range of `int`, is answered by what the handler replies to it, in whatever blocks it arrives and
  -- whatever follows it.
  pub serve-print :
      (blocks : List Bytes) (l : Line) (hs : List Header) (rest : Bytes)
      → IsLine l
      → All IsField hs
      → joined blocks ≡ print l hs rest
      → serve blocks initial ≡ written (to_buffers (handle_request stats (request_of l hs)))
  serve-print blocks l hs rest v a e =
      serve-joined blocks initial ∙ rw (e, parse-print l hs rest v a) (unfold on_result in refl)

  -- What is written for a request that asks for the counters: the line of status 200, the length of
  -- the text in decimal, its type, an empty line, and the text.
  pub serve_stats :
      (blocks : List Bytes) (l : Line) (hs : List Header) (rest : Bytes)
      → IsLine l
      → All IsField hs
      → joined blocks ≡ print l hs rest
      → url_decode l.uri ≡ some (codes "/stats")
      → serve blocks initial
        ≡ written (
            codes "HTTP/1.0 200 OK"
            ++ (b'\r'
                ∷ b'\n'
                ∷ (codes "Content-Length: "
                    ++ (to_string (length stats)
                        ++ (b'\r'
                            ∷ b'\n'
                            ∷ (codes "Content-Type: application/json"
                                ++ (b'\r' ∷ b'\n' ∷ b'\r' ∷ b'\n' ∷ stats)))))))
  unfolding handle_request bytes_eq to_buffers extension_to_type
  serve_stats blocks l hs rest v a e path =
      serve-print blocks l hs rest v a e ∙ rw path (simp append_assoc)
