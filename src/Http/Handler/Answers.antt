-- ===== src/Http/Handler/Answers.antt =====
-- Which requests get which reply, and that a reply says how long its content is.
use iqlogger.Common.{
  ◌≡◌, ◌↔◌, refl, false, Option, none, some, [], ◌∷◌, Bytes, codes, bytes_eq, bytes_eq_iff,
  Bool-cases, inl, inr, arith, length,
}
use iqlogger.Common.Decimal.{number, number-to_string}
use iqlogger.Http.Request.{Request}
use iqlogger.Http.Reply.{Status, Reply, ok, bad_request, not_found, stock_reply}
use iqlogger.Http.Handler.{url_decode, is_bad_path, handle_path, handle_request}

-- The reply declares the length of its content in its first header.
pub data IsFramed (r : Reply) : Type 0 where
  framed :
      (value mime : Bytes)
      → r.headers
        ≡ record { name = codes "Content-Length"; value = value }
          ∷ record { name = codes "Content-Type"; value = mime }
          ∷ []
      → number 0 value ≡ length r.content
      → IsFramed r

stock_reply-IsFramed : (s : Status) → IsFramed (stock_reply s)
unfolding stock_reply
stock_reply-IsFramed s = framed _ _ refl (number-to_string _)

module _ (stats : Bytes) where
  handle_path-IsFramed : (o : Option Bytes) → IsFramed (handle_path stats o)
  unfolding handle_path
  handle_path-IsFramed none = stock_reply-IsFramed bad_request
  handle_path-IsFramed (some path) = elim (Bool-cases (is_bad_path path)) [
    | inl bad ↦ rw bad (stock_reply-IsFramed bad_request)
    | inr good ↦ elim (Bool-cases (bytes_eq path (codes "/stats"))) [
      | inl same ↦ rw (good, same) (framed _ _ refl (number-to_string _))
      | inr other ↦ rw (good, other) (stock_reply-IsFramed not_found)
    ]
  ]

  stats_path : (path : Bytes) → path ≡ codes "/stats" → is_bad_path path ≡ false
  unfolding is_bad_path
  stats_path path e = rw e

  handle_path-ok :
      (o : Option Bytes) → (handle_path stats o).status ≡ ok ↔ (o ≡ some (codes "/stats"))
  unfolding handle_path stock_reply
  handle_path-ok none = (λ e. cc, λ e. cc)
  handle_path-ok (some path) = ground (arith, bytes_eq_iff path (codes "/stats"), stats_path path)

  -- Every reply of the handler declares in its first header, in decimal, the length of its content,
  -- and the reply is `ok` exactly when the URI decodes to `/stats`.
  pub handle_request-IsFramed :
      (req : Request)
      → IsFramed (handle_request stats req)
        × ((handle_request stats req).status ≡ ok ↔ (url_decode req.uri ≡ some (codes "/stats")))
  unfolding handle_request bytes_eq
  handle_request-IsFramed req =
      (handle_path-IsFramed (url_decode req.uri), handle_path-ok (url_decode req.uri))
