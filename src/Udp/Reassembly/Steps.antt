-- ===== src/Udp/Reassembly/Steps.antt =====
-- The steps of the thread on the chunks of one message.
use iqlogger.Common.{
  ℕ, ◌≤◌, ◌<◌, ◌≡◌, ◌≢◌, none, some, [], ◌∷◌, ◌++◌, Bytes, if◌then◌else◌, length, arith, bytes_eq,
}
use iqlogger.Common.Table.{bytes_key, lookup, assign, erase}
use iqlogger.Udp.Chunk.{GelfChunk}
use iqlogger.Udp.Reassembly.{
  Record, ChunkedMessage, Reassembler, max_chunks, set_chunk, add_chunk, new_message, process_chunk,
}
use iqlogger.Udp.Reassembly.Window.{
  total, Within, set_chunk-Within, total_message-full, enqueue_message-full,
}

module _ {E : Type 0} (id : Bytes) (n : ℕ) (content : ℕ → Bytes) (origin : ℕ → E) where
  -- The chunk is one of the `n` parts of the message `id`.
  pub record IsPart (c : GelfChunk E) : Type 0 where
    pub of_message : c.message_id ≡ id
    pub of_count : c.sequence_count ≡ n
    pub in_range : c.sequence_number < n
    pub of_content : c.chunk ≡ content c.sequence_number
    pub of_origin : c.source ≡ origin c.sequence_number

  -- The record that the whole message makes.
  abbrev pub whole : Record E
  whole = record { content = total content 0 n; source = origin 0 }

  -- One record more, no entry for the message, and the other entries as they were.
  pub record Delivered (s t : Reassembler E) : Type 0 where
    pub enqueued : t.enqueued ≡ s.enqueued ++ (whole ∷ [])
    pub table :
        (j : Bytes) → lookup j t.chunk_map ≡ (if bytes_eq id j then none else lookup j s.chunk_map)
    pub bad_chunks : t.bad_chunks ≡ s.bad_chunks

  -- A message that waits for the rest of its chunks.
  pub record Waiting (s : Reassembler E) (message : ChunkedMessage E) : Type 0 where
    pub found : lookup id s.chunk_map ≡ some message
    pub of_size : message.size ≡ n
    pub window : Within content origin 0 n message.chunks

  pub process_chunk-add :
      (now : ℕ) (c : GelfChunk E) (s : Reassembler E) (message : ChunkedMessage E)
      → n ≤ max_chunks
      → IsPart c
      → Waiting s message
      → process_chunk now c s ≡ add_chunk c message s
  unfolding process_chunk
  process_chunk-add now c s message h p w =
      let found : lookup c.message_id s.chunk_map ≡ some message = rw p.of_message w.found in
      ground arith

  pub process_chunk-new :
      (now : ℕ) (c : GelfChunk E) (s : Reassembler E)
      → n ≤ max_chunks
      → IsPart c
      → lookup id s.chunk_map ≡ none
      → process_chunk now c s ≡ new_message now c s
  unfolding process_chunk
  process_chunk-new now c s h p e =
      let found : lookup c.message_id s.chunk_map ≡ none = rw p.of_message e in ground arith

  pub add_chunk-more :
      (c : GelfChunk E) (s : Reassembler E) (message : ChunkedMessage E)
      → IsPart c
      → Waiting s message
      → length (set_chunk c.sequence_number c message.chunks) ≢ n
      → add_chunk c message s ≡ record s {
        chunk_map =
            assign id
              (record message { chunks = set_chunk c.sequence_number c message.chunks })
              s.chunk_map;
      }
  unfolding add_chunk
  add_chunk-more c s message p w h = ground arith

  pub add_chunk-last :
      (c : GelfChunk E) (s : Reassembler E) (message : ChunkedMessage E)
      → 0 < n
      → IsPart c
      → Waiting s message
      → length (set_chunk c.sequence_number c message.chunks) ≡ n
      → add_chunk c message s
        ≡ record s { chunk_map = erase id s.chunk_map; enqueued = s.enqueued ++ (whole ∷ []) }
  unfolding add_chunk
  add_chunk-last c s message h p w e =
      let chunks = set_chunk c.sequence_number c message.chunks in
      let window =
        set_chunk-Within content origin c.sequence_number c 0 n message.chunks (omega arith)
          p.in_range p.of_content p.of_origin w.window in
      ground (
        arith,
        total_message-full content origin 0 n n chunks (omega arith) window e,
        enqueue_message-full content origin n chunks (total content 0 n) s.enqueued h window e,
      )
