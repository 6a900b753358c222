-- ===== src/Udp/Reassembly/Expiry.antt =====
-- Messages that are never delivered: those that are too old, and those of one chunk.
use iqlogger.Common.{
  ℕ, ◌+◌, ◌-◌, ◌/◌, ◌%◌, ◌^◌, ◌≤◌, ◌<◌, ◌≡◌, refl, ◌∙◌, false, none, some, List, [], ◌∷◌, Bytes,
  ltb, leb, length, arith, inl, inr, Bool-cases,
}
use iqlogger.Common.Table.{bytes_key, lookup, Values, lookup-insert_new}
use iqlogger.Udp.Chunk.{GelfChunk}
use iqlogger.Udp.Reassembly.{
  ChunkedMessage, Reassembler, max_chunks, set_chunk, new_message, process_chunk, is_expired,
  expire, check_expired,
}

module _ {E : Type 0} (ttl now : ℕ) where
  -- Younger than the time to live, in whole seconds.
  abbrev pub IsYoung : ChunkedMessage E → Type 0
  IsYoung message = (now - message.time) / 1_000_000_000 < ttl

  expire-IsYoung :
      (m : List (Bytes × ChunkedMessage E)) (bad : ℕ) → Values IsYoung (expire ttl now m bad).0
  unfolding expire is_expired
  expire-IsYoung [] bad = tt
  expire-IsYoung ((id, message) ∷ m) bad = elim (Bool-cases (is_expired ttl now message)) [
    | inl old ↦ rw old (expire-IsYoung m bad)
    | inr young ↦ rw young (ground arith, expire-IsYoung m bad)
  ]

  expire-length :
      (m : List (Bytes × ChunkedMessage E)) (bad : ℕ) → length (expire ttl now m bad).0 ≤ length m
  unfolding expire
  expire-length [] bad = omega arith
  expire-length ((id, message) ∷ m) bad = ground (arith, expire-length m bad)

  expire-bad :
      (m : List (Bytes × ChunkedMessage E)) (bad : ℕ)
      → bad < 2 ^ 64
      → (expire ttl now m bad).1 ≡ (bad + (length m - length (expire ttl now m bad).0)) % 2 ^ 64
  unfolding expire
  expire-bad [] bad h = omega arith
  expire-bad ((id, message) ∷ m) bad h = elim (Bool-cases (is_expired ttl now message)) [
    | inl old ↦ rw old (omega (arith, expire-bad m bad h, expire-length m bad))
    | inr young ↦ rw young (omega (arith, expire-bad m bad h, expire-length m bad))
  ]

  expire-lookup :
      (id : Bytes) (message : ChunkedMessage E) (m : List (Bytes × ChunkedMessage E)) (bad : ℕ)
      → lookup id m ≡ some message
      → IsYoung message
      → lookup id (expire ttl now m bad).0 ≡ some message
  unfolding expire lookup is_expired
  expire-lookup id message [] bad e y = cc
  expire-lookup id message ((j, x) ∷ m) bad e y = ground (arith, expire-lookup id message m bad)

  -- The check keeps no message that has reached the time to live, counts each one that it drops
  -- as bad, modulo 2 ^ 64, and makes no record.
  pub check_expired-IsYoung :
      (s : Reassembler E)
      → s.bad_chunks < 2 ^ 64
      → Values IsYoung (check_expired ttl now s).chunk_map
        × ((check_expired ttl now s).bad_chunks
            ≡ (s.bad_chunks + (length s.chunk_map - length (check_expired ttl now s).chunk_map))
              % 2 ^ 64)
        × ((check_expired ttl now s).enqueued ≡ s.enqueued)
  unfolding check_expired
  check_expired-IsYoung s h =
      (expire-IsYoung s.chunk_map s.bad_chunks, expire-bad s.chunk_map s.bad_chunks h, refl)

  -- A message that is younger than the time to live stays in the table as it was.
  pub check_expired-lookup :
      (s : Reassembler E) (id : Bytes) (message : ChunkedMessage E)
      → lookup id s.chunk_map ≡ some message
      → IsYoung message
      → lookup id (check_expired ttl now s).chunk_map ≡ some message
  unfolding check_expired
  check_expired-lookup s id message = expire-lookup id message s.chunk_map s.bad_chunks

-- A message of one chunk is complete with its first chunk, but no record is made of it: it goes
-- to the table with its one chunk, where it waits like the others.
pub process_chunk_single :
    {E : Type 0} (now : ℕ) (c : GelfChunk E) (s : Reassembler E)
    → c.sequence_count ≡ 1
    → c.sequence_number ≡ 0
    → lookup c.message_id s.chunk_map ≡ none
    → ((process_chunk now c s).enqueued ≡ s.enqueued)
      × (lookup c.message_id (process_chunk now c s).chunk_map
          ≡ some (record { chunks = (0, c) ∷ []; size = 1; time = now }))
unfolding process_chunk new_message set_chunk
process_chunk_single now c s one first e =
    let few : ltb max_chunks c.sequence_count ≡ false = ground arith in
    let inside : leb c.sequence_count c.sequence_number ≡ false = ground arith in
    rw (few, inside, e) (refl, lookup-insert_new c.message_id _ s.chunk_map e ∙ cc (one, first))
