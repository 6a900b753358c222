-- ===== src/Udp/Reassembly.antt =====
-- The thread of src/inputs/gelf/udp/GelfInput.cpp that puts the chunks of a message together.
-- `std::map` is a list in the order of its keys, `std::unordered_map` a table; what is handed to
-- `MessageQueue::enqueue` is `enqueued`, in the order of the calls (the code only logs what the
-- call returns). The name of the input, which each record carries, is left out. Times are in
-- nanoseconds of the steady clock.
pub mod Window
pub mod Steps
pub mod Entries
pub mod Expiry
pub mod Order
use iqlogger.Common.{
  ℕ, ◌+◌, ◌-◌, ◌/◌, ◌%◌, ◌^◌, Bool, true, false, not, Option, none, some, List, [], ◌∷◌, ◌++◌,
  Bytes, ltb, leb, ◌==◌, if◌then◌else◌, length,
}
use iqlogger.Common.Table.{bytes_key, lookup, assign, insert, erase}
use iqlogger.Udp.Chunk.{GelfChunk}

-- `Record<Gelf>`.
pub record Record (E : Type 0) : Type 0 where
  pub content : Bytes
  pub source : E

pub record ChunkedMessage (E : Type 0) : Type 0 where
  pub chunks : List (ℕ × GelfChunk E)
  pub size : ℕ
  pub time : ℕ

pub record Reassembler (E : Type 0) : Type 0 where
  pub chunk_map : List (Bytes × ChunkedMessage E)
  pub enqueued : List (Record E)
  pub bad_chunks : ℕ

abbrev pub max_chunks : ℕ
max_chunks = 128

module _ {E : Type 0} where
  -- `chunks[number] = chunk` in a `std::map`.
  unfoldable pub set_chunk : ℕ → GelfChunk E → List (ℕ × GelfChunk E) → List (ℕ × GelfChunk E)
  set_chunk i c [] = (i, c) ∷ []
  set_chunk i c ((j, d) ∷ m) =
      if ltb i j
      then (i, c) ∷ (j, d) ∷ m
      else if i == j
      then (i, c) ∷ m
      else (j, d) ∷ set_chunk i c m

  -- The loop that writes the chunks to `totalMessage`.
  unfoldable pub total_message : List (ℕ × GelfChunk E) → Bytes
  total_message [] = []
  total_message ((i, c) ∷ m) = c.chunk ++ total_message m

  -- The record of a complete message; it has the source of its first chunk.
  unfoldable pub enqueue_message :
      List (ℕ × GelfChunk E) → Bytes → List (Record E) → List (Record E)
  enqueue_message [] content sent = sent
  enqueue_message ((i, c) ∷ m) content sent =
      sent ++ (record { content = content; source = c.source } ∷ [])

  -- The message is in the table.
  unfoldable pub add_chunk : GelfChunk E → ChunkedMessage E → Reassembler E → Reassembler E
  unfolding total_message enqueue_message
  add_chunk c message s =
      if not (message.size == c.sequence_count)
      then s
      else let chunks = set_chunk c.sequence_number c message.chunks in
        if length chunks == message.size
        then record s {
          chunk_map = erase c.message_id s.chunk_map;
          enqueued = enqueue_message chunks (total_message chunks) s.enqueued;
        }
        else record s {
          chunk_map = assign c.message_id (record message { chunks = chunks }) s.chunk_map;
        }

  -- It is not.
  unfoldable pub new_message : ℕ → GelfChunk E → Reassembler E → Reassembler E
  new_message now c s = record s {
    chunk_map =
        insert c.message_id
          (record {
            chunks = set_chunk c.sequence_number c [];
            size = c.sequence_count;
            time = now;
          })
          s.chunk_map;
  }

  -- The body of the loop over the chunks of a bulk.
  unfoldable pub process_chunk : ℕ → GelfChunk E → Reassembler E → Reassembler E
  unfolding add_chunk new_message
  process_chunk now c s =
      if ltb max_chunks c.sequence_count
      then s
      else if leb c.sequence_count c.sequence_number
      then s
      else elim (lookup c.message_id s.chunk_map) [
        | some message ↦ add_chunk c message s
        | none ↦ new_message now c s
      ]

  unfoldable pub process_bulk : List (ℕ × GelfChunk E) → Reassembler E → Reassembler E
  process_bulk [] s = s
  process_bulk ((now, c) ∷ cs) s = process_bulk cs (process_chunk now c s)

  -- `duration_cast<seconds>(now - time).count() >= m_chunk_ttl`.
  unfoldable pub is_expired : ℕ → ℕ → ChunkedMessage E → Bool
  is_expired ttl now message = leb ttl ((now - message.time) / 1_000_000_000)

  -- The loop that drops the messages that are too old, and counts them.
  unfoldable pub expire :
      ℕ → ℕ → List (Bytes × ChunkedMessage E) → ℕ → List (Bytes × ChunkedMessage E) × ℕ
  expire ttl now [] bad = ([], bad)
  expire ttl now ((id, message) ∷ m) bad =
      let (kept, bad') = expire ttl now m bad in
      if is_expired ttl now message
      then (kept, (bad' + 1) % 2 ^ 64)
      else ((id, message) ∷ kept, bad')

  unfoldable pub check_expired : ℕ → ℕ → Reassembler E → Reassembler E
  unfolding expire
  check_expired ttl now s =
      let (kept, bad) = expire ttl now s.chunk_map s.bad_chunks in
      record s { chunk_map = kept; bad_chunks = bad }

  -- One round of the thread's loop: a bulk of chunks, then the check.
  unfoldable pub round : ℕ → ℕ → List (ℕ × GelfChunk E) → Reassembler E → Reassembler E
  unfolding check_expired
  round ttl now bulk s = check_expired ttl now (process_bulk bulk s)
