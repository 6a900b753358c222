-- ===== src/Udp/Delivery.antt =====
-- A chunked message from the socket to the input queue: the session of
-- src/inputs/gelf/udp/Server.cpp, the chunk queue, and the thread of GelfInput.cpp.
use iqlogger.Common.{
  zero, take, ℕ, suc, ◌≤◌, ◌<◌, ◌≡◌, ◌≢◌, refl, ◌∙◌, none, List, [], ◌∷◌, ◌++◌, Bytes, length, All,
  arith, map, ap, length-append,
}
use iqlogger.Common.Table.{bytes_key, lookup}
use iqlogger.Udp.Chunk.{
  GelfChunk, built, gelf_chunk, datagram, gelf_chunk-datagram, gelf_chunk-datagram_char,
  char_to_size_large,
}
use iqlogger.Udp.Session.{
  received, bytes_received, buffer_size, Received, chunk, is_chunk, process, process-chunk,
}
use iqlogger.Udp.Reassembly.{Reassembler, process_bulk, process_chunk}
use iqlogger.Udp.Reassembly.Steps.{Delivered}
use iqlogger.Udp.Reassembly.Order.{Parts, Differ, Distinct, process_bulk-Delivered}

-- A receive operation that has ended: when its chunk is handled, the datagram, what the buffer held
-- before, and the sender.
pub record Arrival (E : Type 0) : Type 0 where
  pub handled : ℕ
  pub datagram : Bytes
  pub stale : Bytes
  pub endpoint : E

module _ {E : Type 0} where
  -- The chunks in the order in which the thread takes them off the chunk queue.
  unfoldable pub queue_received : ℕ → Received E → List (ℕ × GelfChunk E) → List (ℕ × GelfChunk E)
  queue_received now (chunk c) rest = (now, c) ∷ rest
  queue_received now _ rest = rest

  unfoldable pub chunk_queue : List (Arrival E) → List (ℕ × GelfChunk E)
  unfolding queue_received
  chunk_queue [] = []
  chunk_queue (a ∷ as') =
      queue_received a.handled
        (process (received a.datagram a.stale) (bytes_received a.datagram) a.endpoint)
        (chunk_queue as')

take-whole : (k : ℕ) (b : Bytes) → length b ≤ k → take k b ≡ b
take-whole zero [] h = refl
take-whole (suc k) [] h = refl
take-whole zero (c ∷ b) h = absurd (omega arith)
take-whole (suc k) (c ∷ b) h = ap (◌∷◌ c) (take-whole k b (omega arith))

abbrev pub Absent : ℕ → List ℕ → Type 0
Absent i [] = Unit
Absent i (j ∷ js) = (i ≢ j) × Absent i js

-- Pairwise different numbers.
abbrev pub AllDiffer : List ℕ → Type 0
AllDiffer [] = Unit
AllDiffer (i ∷ is) = Absent i is × AllDiffer is

module _ {E : Type 0} (id : Bytes) (n : ℕ) (content : ℕ → Bytes) (origin : ℕ → E) where
  -- Part `i` of the message, as the sender cuts it, with what the buffer held before behind it.
  abbrev pub arrival : (ℕ → ℕ) → (ℕ → Bytes) → ℕ → Arrival E
  arrival time stale i = record {
    handled = time i;
    datagram = datagram id i n (content i);
    stale = stale i;
    endpoint = origin i;
  }

  abbrev pub part : ℕ → GelfChunk E
  part i = record {
    message_id = id;
    sequence_number = i;
    sequence_count = n;
    chunk = content i;
    source = origin i;
  }

  abbrev timed_part : (ℕ → ℕ) → ℕ → ℕ × GelfChunk E
  timed_part time i = (time i, part i)

  -- A part's datagram fits into the buffer.
  take-datagram :
      (i : ℕ)
      → length id ≡ 8
      → length (content i) ≤ 4084
      → take buffer_size (datagram id i n (content i)) ≡ datagram id i n (content i)
  take-datagram i h small =
      take-whole buffer_size (datagram id i n (content i))
        (omega (arith, h, small, length-append id (i ∷ n ∷ content i)))

  pub process-arrival :
      (stale : ℕ → Bytes) (i : ℕ)
      → length id ≡ 8
      → i < n
      → n < 128
      → content i ≢ []
      → length (content i) ≤ 4084
      → process
          (received (datagram id i n (content i)) (stale i))
          (bytes_received (datagram id i n (content i)))
          (origin i)
        ≡ chunk (part i)
  process-arrival stale i h l k c small =
      ap (λ (t : Bytes). process (t ++ stale i) (length t) (origin i)) (take-datagram i h small)
      ∙ process-chunk (datagram id i n (content i)) (stale i) (origin i) (part i)
          (omega (arith, length-append id (i ∷ n ∷ content i))) (unfold is_chunk in refl)
          (gelf_chunk-datagram id (content i) i n (origin i) h (omega arith) k c)

  chunk_queue-arrivals :
      (time : ℕ → ℕ) (stale : ℕ → Bytes) (order : List ℕ)
      → length id ≡ 8
      → n < 128
      → ((i : ℕ) → content i ≢ [])
      → ((i : ℕ) → length (content i) ≤ 4084)
      → All (λ i. i < n) order
      → chunk_queue (map (arrival time stale) order) ≡ map (timed_part time) order
  unfolding chunk_queue
  chunk_queue-arrivals time stale [] h k c b a = refl
  chunk_queue-arrivals time stale (i ∷ is) h k c b a =
      rw (process-arrival stale i h a.0 k (c i) (b i))
        (ap (◌∷◌ (timed_part time i)) (chunk_queue-arrivals time stale is h k c b a.1))

  timed_part-Parts :
      (time : ℕ → ℕ) (order : List ℕ)
      → All (λ i. i < n) order
      → Parts id n content origin (map (timed_part time) order)
  timed_part-Parts time [] a = tt
  timed_part-Parts time (i ∷ is) a = (
    record {
      of_message = refl;
      of_count = refl;
      in_range = a.0;
      of_content = refl;
      of_origin = refl;
    },
    timed_part-Parts time is a.1,
  )

  timed_part-Differ :
      (time : ℕ → ℕ) (i : ℕ) (order : List ℕ)
      → Absent i order
      → Differ i (map (timed_part time) order)
  timed_part-Differ time i [] a = tt
  timed_part-Differ time i (j ∷ js) a = (a.0, timed_part-Differ time i js a.1)

  timed_part-Distinct :
      (time : ℕ → ℕ) (order : List ℕ) → AllDiffer order → Distinct (map (timed_part time) order)
  timed_part-Distinct time [] d = tt
  timed_part-Distinct time (i ∷ is) d =
      (timed_part-Differ time i is d.0, timed_part-Distinct time is d.1)

  length-parts :
      (time : ℕ → ℕ) (order : List ℕ) → length (map (timed_part time) order) ≡ length order
  length-parts time [] = refl
  length-parts time (i ∷ is) = ap suc (length-parts time is)

  -- A message that a sender cuts into 2 to 127 parts, none of them empty or longer than 4,084 bytes
  -- (so that a datagram fits into the buffer of 4,096), under an identifier of 8 bytes that no message
  -- in the table has, and whose datagrams reach the socket once each, in whatever order, becomes one
  -- record with the parts put together in the order of their numbers, whatever stood in the
  -- buffers before. The thread takes its chunks, and no others, in one bulk, between two checks of
  -- the time limit, and the queue before it has room for them.
  pub datagrams-Delivered :
      (time : ℕ → ℕ) (stale : ℕ → Bytes) (order : List ℕ) (s : Reassembler E)
      → length id ≡ 8
      → 2 ≤ n
      → n < 128
      → ((i : ℕ) → content i ≢ [])
      → ((i : ℕ) → length (content i) ≤ 4084)
      → All (λ i. i < n) order
      → AllDiffer order
      → length order ≡ n
      → lookup id s.chunk_map ≡ none
      → Delivered id n content origin s
          (process_bulk (chunk_queue (map (arrival time stale) order)) s)
  datagrams-Delivered time stale order s h l k c b a d len e =
      rw (chunk_queue-arrivals time stale order h k c b a) (
        process_bulk-Delivered id n content origin (map (timed_part time) order) s l (omega arith) e
          (timed_part-Parts time order a) (timed_part-Distinct time order d)
          (length-parts time order ∙ len))

-- A datagram whose count byte is 128 or more has no effect: it is taken for a chunk, but its count
-- is read as a negative number and is out of range. The limit of 128 chunks that the code and
-- the comment in GelfChunk.h name is thus one of 127.
pub count_128_discarded :
    {E : Type 0} (id payload : Bytes) (n c now : ℕ) (source : E) (s : Reassembler E)
    → length id ≡ 8
    → payload ≢ []
    → 128 ≤ c
    → c < 256
    → (x : GelfChunk E) × (gelf_chunk (datagram id n c payload) source ≡ built x)
      × (process_chunk now x s ≡ s)
unfolding process_chunk
count_128_discarded id payload n c now source s h p l k = (
  _,
  gelf_chunk-datagram_char id payload n c source h p,
  ground (arith, char_to_size_large c l k),
)
