-- ===== src/Http/Parser/Chunks.antt =====
-- Reading a request in pieces: src/stats/http/Connection.cpp calls `parse` on each block that
-- the socket delivers, with the same parser and request.
use iqlogger.Common.{◌≡◌, refl, [], ◌∷◌, ◌++◌, Bytes}
use iqlogger.Http.Parser.{
  Parser, Outcome, indeterminate, good, bad, undefined, overflow, Parsed, parse_next, parse,
  consume,
}

-- Going on after a block that ended in the middle of a request, with the next block.
abbrev pub resume : Parsed → Bytes → Parsed
resume r ys = elim r.result [
  | indeterminate q ↦ parse ys q
  | good q ↦ record { result = good q; rest = r.rest ++ ys }
  | bad q ↦ record { result = bad q; rest = r.rest ++ ys }
  | undefined ↦ record { result = undefined; rest = r.rest ++ ys }
  | overflow ↦ record { result = overflow; rest = r.rest ++ ys }
]

parse_next-append :
    (o : Outcome) (xs ys : Bytes)
    → ((q : Parser) → parse (xs ++ ys) q ≡ resume (parse xs q) ys)
    → parse_next o (xs ++ ys) (parse (xs ++ ys)) ≡ resume (parse_next o xs (parse xs)) ys
unfolding parse_next
parse_next-append (indeterminate q) xs ys ih = ih q
parse_next-append (good q) xs ys ih = refl
parse_next-append (bad q) xs ys ih = refl
parse_next-append undefined xs ys ih = refl
parse_next-append overflow xs ys ih = refl

-- Parsing two blocks one after the other, with the same parser, gives the result, the parser and
-- the unread input of parsing them as one block: wherever the network cuts a request changes
-- nothing.
pub parse-append : (xs ys : Bytes) (p : Parser) → parse (xs ++ ys) p ≡ resume (parse xs p) ys
unfolding parse
parse-append [] ys p = refl
parse-append (c ∷ xs) ys p = parse_next-append (consume p c) xs ys (λ q. parse-append xs ys q)
