-- ===== src/Http/Parser/WellFormed.antt =====
-- The requests that the parser builds, and that it never asks an empty vector for its last entry.
use iqlogger.Common.{
  ℕ, ◌≡◌, ◌≢◌, refl, true, false, not, ◌||◌, List, [], ◌∷◌, ◌++◌, Bytes, ◌==◌, All, All-append,
  arith, subst, sym, Bool-cases, ◌⊎◌, inl, inr,
}
use iqlogger.Http.Request.{Header, is_char, is_ctl, is_tspecial, is_token}
use iqlogger.Http.Parser.{
  State, method_start, method, uri, header_line_start, header_lws, header_name,
  space_before_header_value, header_value, Parser, Outcome, indeterminate, good, bad, undefined,
  overflow, has_headers, update_back, add_name, add_value, with_back, consume_lws, consume_value,
  consume_name, consume_method, consume_uri, consume_line_start, consume_in, consume, parse_next,
  parse, initial,
}

abbrev pub IsToken : ℕ → Type 0
IsToken c = is_token c ≡ true

abbrev pub IsUriChar : ℕ → Type 0
IsUriChar c = (is_ctl c ≡ false) × ((c == b' ') ≡ false)

abbrev pub IsText : ℕ → Type 0
IsText c = is_ctl c ≡ false

-- A header's name is a non-empty token, and its value has no control character.
abbrev pub IsField : Header → Type 0
IsField h = (h.name ≢ []) × All IsToken h.name × All IsText h.value

-- Reading the fields of a header.
abbrev InField : State → Type 0
InField header_lws = Unit
InField header_name = Unit
InField space_before_header_value = Unit
InField header_value = Unit
InField _ = ⊥

abbrev IsStart : State → Type 0
IsStart method_start = Unit
IsStart _ = ⊥

pub record IsWellFormed (p : Parser) : Type 0 where
  pub method_token : All IsToken p.req.method
  pub method_named : (p.req.method ≢ []) ⊎ IsStart p.state
  pub uri_chars : All IsUriChar p.req.uri
  pub fields : All IsField p.req.headers
  pub in_field : InField p.state → has_headers p.req.headers ≡ true

-- What holds of the parser behind an outcome that is neither `bad` nor `overflow`; `undefined`
-- is excluded.
abbrev pub Ensures : (Parser → Type 0) → Outcome → Type 0
Ensures P (indeterminate q) = P q
Ensures P (good q) = P q
Ensures P (bad q) = Unit
Ensures P undefined = ⊥
Ensures P overflow = Unit

concat-ne-nil : (c : ℕ) (xs : Bytes) → xs ++ (c ∷ []) ≢ []
concat-ne-nil c [] = λ e. cc
concat-ne-nil c (x ∷ xs) = λ e. cc

add_name-IsField : (c : ℕ) (h : Header) → IsToken c → IsField h → IsField (add_name c h)
add_name-IsField c h t f =
    (concat-ne-nil c h.name, All-append IsToken h.name (c ∷ []) f.1 (t, tt), f.2)

add_value-IsField : (c : ℕ) (h : Header) → IsText c → IsField h → IsField (add_value c h)
add_value-IsField c h t f = (f.0, f.1, All-append IsText h.value (c ∷ []) f.2 (t, tt))

update_back-fields :
    (f : Header → Header) (hs : List Header)
    → ((h : Header) → IsField h → IsField (f h))
    → All IsField hs
    → All IsField (update_back f hs)
unfolding update_back
update_back-fields f [] keep a = a
update_back-fields f (h ∷ []) keep a = (keep h a.0, tt)
update_back-fields f (h ∷ g ∷ hs) keep a = (a.0, update_back-fields f (g ∷ hs) keep a.1)

has_headers-update_back :
    (f : Header → Header) (hs : List Header) → has_headers (update_back f hs) ≡ has_headers hs
unfolding update_back has_headers
has_headers-update_back f [] = refl
has_headers-update_back f (h ∷ []) = refl
has_headers-update_back f (h ∷ g ∷ hs) = refl

pub has_headers-append : (h : Header) (hs : List Header) → has_headers (hs ++ (h ∷ [])) ≡ true
unfolding has_headers
has_headers-append h [] = refl
has_headers-append h (x ∷ xs) = refl

with_back-IsWellFormed :
    (f : Header → Header) (s : State) (p : Parser)
    → ((h : Header) → IsField h → IsField (f h))
    → (p.req.method ≢ []) ⊎ IsStart s
    → has_headers p.req.headers ≡ true
    → IsWellFormed p
    → Ensures IsWellFormed (with_back f s p)
unfolding with_back
with_back-IsWellFormed f s p keep m have v = rw have (record {
  method_token = v.method_token;
  method_named = m;
  uri_chars = v.uri_chars;
  fields = update_back-fields f p.req.headers keep v.fields;
  in_field = λ _. rw (has_headers-update_back f p.req.headers) have;
})

named_at : (s : State) (p : Parser) → p.state ≡ s → IsWellFormed p → (p.req.method ≢ []) ⊎ IsStart s
named_at s p e v = subst (λ t. (p.req.method ≢ []) ⊎ IsStart t) e v.method_named

have_at :
    (s : State) (p : Parser)
    → p.state ≡ s
    → IsWellFormed p
    → InField s
    → has_headers p.req.headers ≡ true
have_at s p e v h = v.in_field (subst InField (sym e) h)

consume_lws-IsWellFormed :
    (p : Parser) (c : ℕ)
    → p.state ≡ header_lws
    → IsWellFormed p
    → Ensures IsWellFormed (consume_lws p c)
unfolding consume_lws
consume_lws-IsWellFormed p c e v = elim (Bool-cases (is_ctl c)) [
  | inl ctl ↦ ground arith
  | inr text ↦ ground (
    arith,
    with_back-IsWellFormed (add_value c) header_value p (λ h. add_value-IsField c h text)
        (named_at header_lws p e v) (have_at header_lws p e v tt) v,
  )
]

consume_value-IsWellFormed :
    (p : Parser) (c : ℕ)
    → p.state ≡ header_value
    → IsWellFormed p
    → Ensures IsWellFormed (consume_value p c)
unfolding consume_value
consume_value-IsWellFormed p c e v = elim (Bool-cases (is_ctl c)) [
  | inl ctl ↦ ground arith
  | inr text ↦ ground (
    arith,
    with_back-IsWellFormed (add_value c) p.state p (λ h. add_value-IsField c h text) v.method_named
        (have_at header_value p e v tt) v,
  )
]

-- A character that the three `bad` results let through is a token character.
IsToken-of : (c : ℕ) → (not (is_char c) || is_ctl c || is_tspecial c) ≡ false → IsToken c
unfolding is_token
IsToken-of c h = rw h

consume_name-IsWellFormed :
    (p : Parser) (c : ℕ)
    → p.state ≡ header_name
    → IsWellFormed p
    → Ensures IsWellFormed (consume_name p c)
unfolding consume_name
consume_name-IsWellFormed p c e v =
    elim (Bool-cases (not (is_char c) || is_ctl c || is_tspecial c)) [
      | inl other ↦ rw other (ground arith)
      | inr token ↦ rw token (
          ground (
            arith,
            with_back-IsWellFormed (add_name c) p.state p
                (λ h. add_name-IsField c h (IsToken-of c token)) v.method_named
                (have_at header_name p e v tt) v,
          ))
    ]

consume_method_start-IsWellFormed :
    (p : Parser) (c : ℕ) → IsWellFormed p → Ensures IsWellFormed (consume_in method_start p c)
unfolding consume_in
consume_method_start-IsWellFormed p c v =
    elim (Bool-cases (not (is_char c) || is_ctl c || is_tspecial c)) [
      | inl other ↦ rw other tt
      | inr token ↦ rw token (record {
        method_token =
            All-append IsToken p.req.method (c ∷ []) v.method_token (IsToken-of c token, tt);
        method_named = inl (concat-ne-nil c p.req.method);
        uri_chars = v.uri_chars;
        fields = v.fields;
        in_field = λ h. absurd h;
      })
    ]

consume_method-IsWellFormed :
    (p : Parser) (c : ℕ)
    → p.state ≡ method
    → IsWellFormed p
    → Ensures IsWellFormed (consume_method p c)
unfolding consume_method
consume_method-IsWellFormed p c e v =
    elim (Bool-cases (not (is_char c) || is_ctl c || is_tspecial c)) [
      | inl other ↦ rw other (ground (arith, named_at method p e v))
      | inr token ↦ rw token (
          ground (
            arith,
            named_at method p e v,
            concat-ne-nil c p.req.method,
            All-append IsToken p.req.method (c ∷ []) v.method_token (IsToken-of c token, tt),
          ))
    ]

consume_uri-IsWellFormed :
    (p : Parser) (c : ℕ) → p.state ≡ uri → IsWellFormed p → Ensures IsWellFormed (consume_uri p c)
unfolding consume_uri
consume_uri-IsWellFormed p c e v = ground (
  arith,
  named_at uri p e v,
  λ (h : IsUriChar c). All-append IsUriChar p.req.uri (c ∷ []) v.uri_chars (h, tt),
)

consume_line_start-IsWellFormed :
    (p : Parser) (c : ℕ)
    → p.state ≡ header_line_start
    → IsWellFormed p
    → Ensures IsWellFormed (consume_line_start p c)
unfolding consume_line_start
consume_line_start-IsWellFormed p c e v =
    elim (Bool-cases (not (is_char c) || is_ctl c || is_tspecial c)) [
      | inl other ↦ rw other (ground (arith, named_at header_line_start p e v))
      | inr token ↦ rw token (
          ground (
            arith,
            named_at header_line_start p e v,
            has_headers-append (record { name = c ∷ []; value = [] }) p.req.headers,
            All-append IsField p.req.headers (record { name = c ∷ []; value = [] } ∷ []) v.fields
                ((concat-ne-nil c [], (IsToken-of c token, tt), tt), tt),
          ))
    ]

consume_in-IsWellFormed :
    (s : State) (p : Parser) (c : ℕ)
    → p.state ≡ s
    → IsWellFormed p
    → Ensures IsWellFormed (consume_in s p c)
unfolding consume_in
consume_in-IsWellFormed header_lws p c e v = consume_lws-IsWellFormed p c e v
consume_in-IsWellFormed header_value p c e v = consume_value-IsWellFormed p c e v
consume_in-IsWellFormed header_name p c e v = consume_name-IsWellFormed p c e v
consume_in-IsWellFormed method_start p c e v = consume_method_start-IsWellFormed p c v
consume_in-IsWellFormed method p c e v = consume_method-IsWellFormed p c e v
consume_in-IsWellFormed uri p c e v = consume_uri-IsWellFormed p c e v
consume_in-IsWellFormed header_line_start p c e v = consume_line_start-IsWellFormed p c e v
consume_in-IsWellFormed _ p c e v = ground arith

parse_next-IsWellFormed :
    (o : Outcome) (cs : Bytes)
    → ((q : Parser) → IsWellFormed q → Ensures IsWellFormed (parse cs q).result)
    → Ensures IsWellFormed o
    → Ensures IsWellFormed (parse_next o cs (parse cs)).result
unfolding parse_next
parse_next-IsWellFormed (indeterminate q) cs ih v = ih q v
parse_next-IsWellFormed (good q) cs ih v = v
parse_next-IsWellFormed (bad q) cs ih v = v
parse_next-IsWellFormed undefined cs ih v = v
parse_next-IsWellFormed overflow cs ih v = v

-- On any input, from any parser that is well formed, `parse` never takes `back()` of an empty
-- vector of headers, and unless it answers `bad` or a version number overflows, the parser is well formed again: the method is
-- made of token characters, the URI holds no control character and no space, and each header has
-- a non-empty token for its name and no control character in its value.
pub parse-IsWellFormed :
    (cs : Bytes) (p : Parser) → IsWellFormed p → Ensures IsWellFormed (parse cs p).result
unfolding parse
parse-IsWellFormed [] p v = v
parse-IsWellFormed (c ∷ cs) p v =
    parse_next-IsWellFormed (consume p c) cs (λ q w. parse-IsWellFormed cs q w)
      (consume_in-IsWellFormed p.state p c refl v)

pub initial-IsWellFormed : IsWellFormed initial
initial-IsWellFormed = record {
  method_token = tt;
  method_named = inr tt;
  uri_chars = tt;
  fields = tt;
  in_field = λ h. absurd h;
}
