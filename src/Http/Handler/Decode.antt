-- ===== src/Http/Handler/Decode.antt =====
-- Percent-encoding, and what the decoder makes of it.
use iqlogger.Common.{
  ℕ, ◌+◌, ◌-◌, ◌*◌, ◌/◌, ◌%◌, ◌<◌, ◌≡◌, ◌≢◌, refl, ap, ◌∙◌, Bool, true, false, none, some, [], ◌∷◌,
  Bytes, ltb, ◌==◌, if◌then◌else◌, All, arith, inl, inr, Bool-cases,
}
use mathlib.Core.Option
use iqlogger.Http.Handler.{
  is_space, hex_digit, second_digit, first_digit, read_hex, escape, plain, url_decode,
}

-- The digit, in lower case.
unfoldable pub hex_char : ℕ → ℕ
hex_char n = if ltb n 10 then b'0' + n else b'a' + (n - 10)

-- The encoder of a client: `keep` says which bytes are written as they are.
unfoldable pub url_encode : (ℕ → Bool) → Bytes → Bytes
url_encode keep [] = []
url_encode keep (c ∷ cs) =
    if keep c
    then c ∷ url_encode keep cs
    else b'%' ∷ hex_char (c / 16) ∷ hex_char (c % 16) ∷ url_encode keep cs

read_hex-hex_char :
    (h l : ℕ) → h < 16 → l < 16 → read_hex (hex_char h) (hex_char l) ≡ some (h * 16 + l)
unfolding read_hex hex_char is_space hex_digit first_digit second_digit
read_hex-hex_char h l a b = ground arith

url_decode-plain :
    (c : ℕ) (cs : Bytes)
    → (c == b'%') ≡ false
    → url_decode (c ∷ cs) ≡ Option.map (◌∷◌ (plain c)) (url_decode cs)
unfolding url_decode
url_decode-plain c [] h = rw h refl
url_decode-plain c (a ∷ []) h = rw h refl
url_decode-plain c (a ∷ b ∷ cs) h = rw h refl

url_decode-escape :
    (a b : ℕ) (cs : Bytes) → url_decode (b'%' ∷ a ∷ b ∷ cs) ≡ escape (read_hex a b) (url_decode cs)
unfolding url_decode
url_decode-escape a b cs = refl

-- Whatever bytes a client leaves as they are, except `%` and `+`, decoding what it has encoded gives
-- the text back.
pub url_decode-url_encode :
    (keep : ℕ → Bool) (text : Bytes)
    → ((c : ℕ) → keep c ≡ true → (c ≢ b'%') × (c ≢ b'+'))
    → All (λ c. c < 256) text
    → url_decode (url_encode keep text) ≡ some text
unfolding url_encode escape
url_decode-url_encode keep [] safe bytes = (unfold url_decode in refl)
url_decode-url_encode keep (c ∷ cs) safe bytes = elim (Bool-cases (keep c)) [
  | inl kept ↦
      let same : plain c ≡ c = ground (arith, safe c kept) in
      rw (kept, url_decode-plain c (url_encode keep cs) (ground (arith, safe c kept)))
        (rw (url_decode-url_encode keep cs safe bytes.1, same) refl)
  | inr coded ↦
      rw
        (
          coded,
          url_decode-escape (hex_char (c / 16)) (hex_char (c % 16)) (url_encode keep cs),
          read_hex-hex_char (c / 16) (c % 16) (omega (arith, bytes.0)) (omega arith),
          url_decode-url_encode keep cs safe bytes.1,
          escape,
        )
        (ap (λ (t : ℕ). some (t ∷ cs)) (omega arith))
]

-- An escape whose second character is no hexadecimal digit is not refused, though it is not in the
-- form of a percent-encoding: if the first is a digit other than 0, that digit
-- alone is the byte, and the second character is dropped.
pub url_decode_drops :
    (a b v : ℕ) (cs : Bytes)
    → hex_digit a ≡ some v
    → hex_digit b ≡ none
    → 0 < v
    → url_decode (b'%' ∷ a ∷ b ∷ cs) ≡ Option.map (◌∷◌ v) (url_decode cs)
unfolding read_hex first_digit second_digit is_space hex_digit escape
url_decode_drops a b v cs first second h = url_decode-escape a b cs ∙ ground arith
