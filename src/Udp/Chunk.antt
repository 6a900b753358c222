-- ===== src/Udp/Chunk.antt =====
-- A chunk of a GELF message: src/inputs/gelf/udp/GelfChunk.h and GelfChunk.cpp. `E` is the type
-- of `boost::asio::ip::udp::endpoint`.
use iqlogger.Common.{
  ℕ, ◌+◌, ◌-◌, ◌^◌, ◌≤◌, ◌<◌, ◌≡◌, ◌≢◌, refl, false, [], ◌∷◌, ◌++◌, Bytes, ltb, leb, ◌==◌,
  if◌then◌else◌, length, take, drop, arith, subst, ◌∙◌, suc, length-drop, length-append,
  take-append_length, drop-append_length,
}

pub record GelfChunk (E : Type 0) : Type 0 where
  pub message_id : Bytes
  pub sequence_number : ℕ
  pub sequence_count : ℕ
  pub chunk : Bytes
  pub source : E

-- The constructor's outcome: the chunk, a `GelfException`, or a read past the end of the string.
pub data Built (E : Type 0) : Type 0 where
  built : GelfChunk E → Built E
  thrown : Built E
  undefined : Built E

-- `m_sequenceNumber = (char)*it2++`: a byte from 128 on is a negative `char`, which becomes a
-- number close to 2 ^ 64 as a `size_t`.
unfoldable pub char_to_size : ℕ → ℕ
char_to_size c = if ltb c 128 then c else 2 ^ 64 - (256 - c)

-- The steps of `it` over the magic bytes.
unfoldable pub skip_magic : Bytes → Bytes
skip_magic (a ∷ b ∷ rest) =
    if a == 0x1e then (if b == 0x0f then rest else b ∷ rest) else a ∷ b ∷ rest
skip_magic rest = rest

module _ {E : Type 0} where
  -- The two bytes behind the identifier, and the rest.
  unfoldable pub read_numbers : Bytes → E → Bytes → Built E
  read_numbers id source (n ∷ c ∷ rest) = built (record {
    message_id = id;
    sequence_number = char_to_size n;
    sequence_count = char_to_size c;
    chunk = rest;
    source = source;
  })
  read_numbers id source _ = undefined

  unfoldable pub gelf_chunk : Bytes → E → Built E
  gelf_chunk chunk source =
      if leb (length chunk) 12
      then thrown
      else let it = skip_magic chunk in read_numbers (take 8 it) source (drop 8 it)

length-skip_magic : (b : Bytes) → length b ≤ length (skip_magic b) + 2
unfolding skip_magic
length-skip_magic [] = omega arith
length-skip_magic (a ∷ []) = omega arith
length-skip_magic (a ∷ b ∷ rest) = ground arith

char_to_size_small : (c : ℕ) → c < 128 → char_to_size c ≡ c
unfolding char_to_size
char_to_size_small c h = ground arith

pub char_to_size_large : (c : ℕ) → 128 ≤ c → c < 256 → 2 ^ 64 - 128 ≤ char_to_size c
unfolding char_to_size
char_to_size_large c h k = ground arith

-- The datagram of a chunk: magic bytes, identifier, number, count, payload.
abbrev pub datagram : Bytes → ℕ → ℕ → Bytes → Bytes
datagram id n c payload = 0x1e ∷ 0x0f ∷ (id ++ (n ∷ c ∷ payload))

module _ {E : Type 0} where
  read_numbers-eq :
      (id b : Bytes) (source : E)
      → 2 ≤ length b
      → (c : GelfChunk E) × (read_numbers id source b ≡ built c)
  unfolding read_numbers
  read_numbers-eq id (n ∷ c ∷ rest) source h = (_, refl)
  read_numbers-eq id (n ∷ []) source h = absurd (omega arith)
  read_numbers-eq id [] source h = absurd (omega arith)

  -- A string of 12 bytes or less is refused by the exception, and one of 13 or more gives a
  -- chunk, without a read past its end.
  pub gelf_chunk_total :
      (b : Bytes) (source : E)
      → (length b ≤ 12 → gelf_chunk b source ≡ thrown)
        × (13 ≤ length b → (c : GelfChunk E) × (gelf_chunk b source ≡ built c))
  unfolding gelf_chunk
  gelf_chunk_total b source = (
    λ h. ground arith,
    λ h. rw (le→leb_false h) (
        read_numbers-eq (take 8 (skip_magic b)) (drop 8 (skip_magic b)) source
          (omega (arith, length-drop 8 (skip_magic b), length-skip_magic b))),
  )
    where
      le→leb_false : 13 ≤ length b → leb (length b) 12 ≡ false
      le→leb_false h = ground arith

  -- A datagram with an identifier of 8 bytes and a payload that is not empty is read back as its
  -- four parts, the number and the count as a signed `char` gives them.
  pub gelf_chunk-datagram_char :
      (id payload : Bytes) (n c : ℕ) (source : E)
      → length id ≡ 8
      → payload ≢ []
      → gelf_chunk (datagram id n c payload) source
        ≡ built (record {
          message_id = id;
          sequence_number = char_to_size n;
          sequence_count = char_to_size c;
          chunk = payload;
          source = source;
        })
  unfolding gelf_chunk skip_magic read_numbers
  gelf_chunk-datagram_char id payload n c source hi hp = rw (long, front, back) refl
    where
      parts : Bytes
      parts = id ++ (n ∷ c ∷ payload)

      size : (p : Bytes) → p ≢ [] → length parts ≡ 10 + length p → 13 ≤ 2 + length parts
      size [] h e = absurd (h refl)
      size (x ∷ p) h e = omega arith

      long : leb (suc (suc (length parts))) 12 ≡ false
      long =
          let l : 13 ≤ 2 + length parts =
            size payload hp (omega (arith, length-append id (n ∷ c ∷ payload))) in
          ground arith

      front : take 8 parts ≡ id
      front = subst (λ k. take k parts ≡ id) hi (take-append_length id (n ∷ c ∷ payload))

      back : drop 8 parts ≡ n ∷ c ∷ payload
      back =
          subst (λ k. drop k parts ≡ n ∷ c ∷ payload) hi (drop-append_length id (n ∷ c ∷ payload))

  -- A datagram with an identifier of 8 bytes, a number and a count below 128 and a payload that
  -- is not empty is read back as these four parts.
  pub gelf_chunk-datagram :
      (id payload : Bytes) (n c : ℕ) (source : E)
      → length id ≡ 8
      → n < 128
      → c < 128
      → payload ≢ []
      → gelf_chunk (datagram id n c payload) source
        ≡ built (record {
          message_id = id;
          sequence_number = n;
          sequence_count = c;
          chunk = payload;
          source = source;
        })
  gelf_chunk-datagram id payload n c source hi hn hc hp =
      gelf_chunk-datagram_char id payload n c source hi hp
      ∙ rw (char_to_size_small n hn, char_to_size_small c hc) refl
