-- ===== src/Udp/Session.antt =====
-- What arrives on the socket: `Server::udp_session::process` of src/inputs/gelf/udp/Server.cpp,
-- with the buffer of src/inputs/gelf/udp/Server.h.
use iqlogger.Common.{
  ℕ, ◌≤◌, ◌≡◌, refl, Bool, true, false, ◌&&◌, ◌∷◌, ◌++◌, Bytes, leb, ◌==◌, if◌then◌else◌, length,
  take, arith, min, ap, Bool-cases, inl, inr, ◌∙◌, length-append, take-append_length,
}
use iqlogger.Udp.Chunk.{GelfChunk, Built, built, thrown, undefined, gelf_chunk, gelf_chunk_total}
use iqlogger.Udp.Reassembly.{Record}

-- What the session does with a datagram: it hands a chunk to the chunk queue, or a record to the
-- input queue, or drops it with a warning. `fault` is a read past the end of a string.
pub data Received (E : Type 0) : Type 0 where
  chunk : GelfChunk E → Received E
  record_of : Record E → Received E
  dropped : Received E
  fault : Received E

abbrev pub buffer_size : ℕ
buffer_size = 4096

-- `async_receive_from` with the session's buffer: what the buffer begins with after a datagram, of
-- which no more than the buffer holds is kept, in front of what it held before.
abbrev pub received : Bytes → Bytes → Bytes
received d stale = take buffer_size d ++ stale

abbrev pub bytes_received : Bytes → ℕ
bytes_received d = length (take buffer_size d)

-- The tests on the magic bytes.
unfoldable pub is_chunk : Bytes → Bool
is_chunk (a ∷ b ∷ rest) = a == 0x1e && b == 0x0f
is_chunk _ = false

process_front : (d stale : Bytes) → take (min (length (d ++ stale)) (length d)) (d ++ stale) ≡ d
process_front d stale =
    ap (λ (k : ℕ). take k (d ++ stale)) (omega (arith, length-append d stale))
    ∙ take-append_length d stale

module _ {E : Type 0} where
  -- The outcome of the constructor `GelfChunk`, with the handler of `GelfException`.
  unfoldable pub received_chunk : Built E → Received E
  received_chunk (built c) = chunk c
  received_chunk thrown = dropped
  received_chunk undefined = fault

  -- `buffer` is the buffer's content, of which the datagram is the beginning.
  unfoldable pub process : Bytes → ℕ → E → Received E
  unfolding received_chunk is_chunk
  process buffer bytes_transferred endpoint =
      let buff = take (min (length buffer) bytes_transferred) buffer in
      if leb (length buff) 2
      then dropped
      else if is_chunk buff
      then received_chunk (gelf_chunk buff endpoint)
      else record_of (record { content = buff; source = endpoint })

  -- What the session is to answer to a datagram.
  pub data Answer (d : Bytes) (endpoint : E) (r : Received E) : Type 0 where
    too_short : length d ≤ 2 → r ≡ dropped → Answer d endpoint r
    plain :
        3 ≤ length d
        → is_chunk d ≡ false
        → r ≡ record_of (record { content = d; source = endpoint })
        → Answer d endpoint r
    short_chunk : is_chunk d ≡ true → length d ≤ 12 → r ≡ dropped → Answer d endpoint r
    whole_chunk :
        (c : GelfChunk E)
        → is_chunk d ≡ true
        → 13 ≤ length d
        → gelf_chunk d endpoint ≡ built c
        → r ≡ chunk c
        → Answer d endpoint r

  front-Answer :
      (d stale : Bytes) (endpoint : E)
      → Answer d endpoint (process (d ++ stale) (length d) endpoint)
  unfolding process
  front-Answer d stale endpoint = elim (Bool-cases (leb (length d) 2)) [
    | inl short ↦ too_short (ground arith) (rw (process_front d stale, short) refl)
    | inr long ↦ elim (Bool-cases (is_chunk d)) [
      | inr text ↦ plain (ground arith) text (rw (process_front d stale, long, text) refl)
      | inl magic ↦ elim (Bool-cases (leb (length d) 12)) [
        | inl few ↦ short_chunk magic (ground arith) (
            rw (process_front d stale, long, magic, (gelf_chunk_total d endpoint).0 (ground arith))
              refl)
        | inr many ↦
            let (c, e) = (gelf_chunk_total d endpoint).1 (ground arith) in
            whole_chunk c magic (ground arith) e (rw (process_front d stale, long, magic, e) refl)
      ]
    ]
  ]

  -- A datagram of any length, of which the buffer keeps the first 4,096 bytes, with whatever the buffer
  -- held behind them: if two bytes or less are kept they are dropped; without the magic bytes they
  -- become a record of exactly these bytes; with them they are dropped up to 12 bytes and give a chunk
  -- from 13 on. No string is read past its end.
  pub process-Answer :
      (d stale : Bytes) (endpoint : E)
      → Answer
          (take buffer_size d)
          endpoint
          (process (received d stale) (bytes_received d) endpoint)
  process-Answer d stale endpoint = front-Answer (take buffer_size d) stale endpoint

  -- A datagram that `gelf_chunk` takes gives its chunk.
  pub process-chunk :
      (d stale : Bytes) (endpoint : E) (c : GelfChunk E)
      → 3 ≤ length d
      → is_chunk d ≡ true
      → gelf_chunk d endpoint ≡ built c
      → process (d ++ stale) (length d) endpoint ≡ chunk c
  unfolding process
  process-chunk d stale endpoint c l magic e =
      let long : leb (length d) 2 ≡ false = ground arith in
      rw (process_front d stale, long, magic, e) refl
