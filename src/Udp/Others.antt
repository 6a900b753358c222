-- ===== src/Udp/Others.antt =====
-- What other datagrams and the checks of the time limit do to a message: src/inputs/gelf/udp/Server.cpp
-- and the thread of src/inputs/gelf/udp/GelfInput.cpp.
use iqlogger.Common.{
  ℕ, ◌≡◌, ◌≢◌, refl, sym, ◌∙◌, none, List, [], ◌∷◌, ◌++◌, append-nil, Bytes, length, arith, ◌==◌,
  ltb, leb, inl, inr, Bool-cases, Option-cases,
}
use iqlogger.Common.Table.{bytes_key, lookup}
use iqlogger.Udp.Chunk.{GelfChunk}
use iqlogger.Udp.Session.{
  Received, chunk, record_of, dropped, fault, received, bytes_received, process,
}
use iqlogger.Udp.Reassembly.{
  Record, ChunkedMessage, Reassembler, max_chunks, set_chunk, enqueue_message, add_chunk,
  new_message, process_chunk, expire,
}
use iqlogger.Udp.Reassembly.Entries.{process_chunk-others}
use iqlogger.Udp.Delivery.{Arrival}

module _ {E : Type 0} where
  -- What is received is handled: a chunk by the thread that puts chunks together.
  unfoldable pub handle_received : ℕ → Received E → Reassembler E → Reassembler E
  handle_received now (chunk c) s = process_chunk now c s
  handle_received now _ s = s

  unfoldable pub handle_arrival : Arrival E → Reassembler E → Reassembler E
  unfolding handle_received
  handle_arrival a =
      handle_received a.handled
        (process (received a.datagram a.stale) (bytes_received a.datagram) a.endpoint)

  -- More records are made, and none is taken back.
  abbrev pub More : Reassembler E → Reassembler E → Type 0
  More s t = (more : List (Record E)) × (t.enqueued ≡ s.enqueued ++ more)

  pub More-same : (s t : Reassembler E) → t.enqueued ≡ s.enqueued → More s t
  More-same s t e = ([], e ∙ sym (append-nil s.enqueued))

  enqueue_message-More :
      (m : List (ℕ × GelfChunk E)) (text : Bytes) (sent : List (Record E))
      → (more : List (Record E)) × (enqueue_message m text sent ≡ sent ++ more)
  unfolding enqueue_message
  enqueue_message-More [] text sent = ([], sym (append-nil sent))
  enqueue_message-More ((i, c) ∷ m) text sent = (_, refl)

  add_chunk-More :
      (c : GelfChunk E) (message : ChunkedMessage E) (s : Reassembler E)
      → More s (add_chunk c message s)
  unfolding add_chunk
  add_chunk-More c message s = elim (Bool-cases (message.size == c.sequence_count)) [
    | inr differ ↦ rw differ (More-same s s refl)
    | inl same ↦
        elim (Bool-cases (length (set_chunk c.sequence_number c message.chunks) == message.size)) [
          | inl full ↦ rw (same, full) (enqueue_message-More _ _ s.enqueued)
          | inr some_missing ↦ rw (same, some_missing) (More-same s s refl)
        ]
  ]

  process_chunk-More :
      (now : ℕ) (c : GelfChunk E) (s : Reassembler E) → More s (process_chunk now c s)
  unfolding process_chunk new_message
  process_chunk-More now c s = elim (Bool-cases (ltb max_chunks c.sequence_count)) [
    | inl many ↦ rw many (More-same s s refl)
    | inr few ↦ elim (Bool-cases (leb c.sequence_count c.sequence_number)) [
      | inl beyond ↦ rw (few, beyond) (More-same s s refl)
      | inr inside ↦ elim (Option-cases (lookup c.message_id s.chunk_map)) [
        | inl e ↦ rw (few, inside, e) (More-same s s refl)
        | inr (message, e) ↦ rw (few, inside, e) (add_chunk-More c message s)
      ]
    ]
  ]

  -- No chunk of this message.
  abbrev pub IsOther : Bytes → Received E → Type 0
  IsOther id (chunk c) = c.message_id ≢ id
  IsOther id _ = Unit

  pub handle_received-other :
      (id : Bytes) (now : ℕ) (r : Received E) (s : Reassembler E)
      → IsOther id r
      → More s (handle_received now r s)
        × (lookup id (handle_received now r s).chunk_map ≡ lookup id s.chunk_map)
  unfolding handle_received
  handle_received-other id now (chunk c) s h =
      (process_chunk-More now c s, process_chunk-others now c s id h)
  handle_received-other id now (record_of r) s h = (More-same s s refl, refl)
  handle_received-other id now dropped s h = (More-same s s refl, refl)
  handle_received-other id now fault s h = (More-same s s refl, refl)

  pub expire-none :
      (ttl now : ℕ) (id : Bytes) (m : List (Bytes × ChunkedMessage E)) (bad : ℕ)
      → lookup id m ≡ none
      → lookup id (expire ttl now m bad).0 ≡ none
  unfolding expire lookup
  expire-none ttl now id [] bad h = refl
  expire-none ttl now id ((j, x) ∷ m) bad h = ground (arith, expire-none ttl now id m bad)
