-- ===== src/Tests/UdpInput.antt =====
-- The GELF input over UDP on a message of two parts.
use iqlogger.Common.{List, take, ℕ, refl, [], ◌∷◌, Bytes, codes, arith, bytes_eq, inl}
use iqlogger.Common.Table.{bytes_key, lookup}
use iqlogger.Udp.Chunk.{GelfChunk}
use iqlogger.Udp.Reassembly.{Reassembler, process_chunk}
use iqlogger.Udp.Reassembly.Entries.{IsTable, Adds, process_chunk-IsTable}
use iqlogger.Udp.Session.{
  is_chunk, process, received, bytes_received, buffer_size, Answer, process-Answer,
}
use iqlogger.Udp.Traffic.{
  Turn, part_turn, other_turn, check_turn, IsMade, perform_all, perform_all-IsMade,
}
use iqlogger.Udp.Delivery.{Arrival}

abbrev ident : Bytes
ident = codes "abcdefgh"

abbrev fresh : Reassembler ℕ
fresh = record { chunk_map = []; enqueued = []; bad_chunks = 0 }

abbrev part_text : ℕ → Bytes
part_text i = codes "xy"

abbrev sender : ℕ → ℕ
sender i = 7

abbrev first_part : GelfChunk ℕ
first_part = record {
  message_id = ident;
  sequence_number = 0;
  sequence_count = 2;
  chunk = codes "xy";
  source = 7;
}

abbrev waiting : Reassembler ℕ
waiting = record fresh {
  chunk_map = (ident, record { chunks = (0, first_part) ∷ []; size = 2; time = 5 }) ∷ [];
}

waiting-IsTable : IsTable waiting
waiting-IsTable = (
  record {
    some_chunk = ground arith;
    ascending = omega arith;
    bounded = omega arith;
    waits = inl (omega arith);
  },
  tt,
)

process_chunk-IsTable_example :
    IsTable (process_chunk 6 (record first_part { sequence_number = 1 }) waiting)
    × Adds 6
        (record first_part { sequence_number = 1 })
        waiting
        (process_chunk 6 (record first_part { sequence_number = 1 }) waiting)
process_chunk-IsTable_example =
    process_chunk-IsTable 6 (record first_part { sequence_number = 1 }) waiting waiting-IsTable

process-Answer_example :
    Answer {E = ℕ}
      (take buffer_size (codes "{\"a\":1}"))
      7
      (process (received (codes "{\"a\":1}") (codes "old")) (bytes_received (codes "{\"a\":1}")) 7)
process-Answer_example = process-Answer (codes "{\"a\":1}") (codes "old") 7

-- A datagram that is no chunk, and a check after two seconds, between the parts.
abbrev log_line : Arrival ℕ
log_line = record { handled = 1; datagram = codes "{\"a\":1}"; stale = []; endpoint = 9 }

abbrev traffic : List (Turn ℕ)
traffic =
    other_turn log_line ∷ check_turn 2_000_000_000 ∷ part_turn 0 ∷ check_turn 4_000_000_000 ∷ []

perform_all-IsMade_example :
    IsMade 5 ident 2 part_text sender
      (λ i. 5)
      (λ i. codes "old")
      fresh
      (perform_all 5 ident 2 part_text sender
        (λ i. 5)
        (λ i. codes "old")
        (part_turn 1 ∷ traffic)
        fresh)
unfolding lookup bytes_eq process is_chunk
perform_all-IsMade_example =
    perform_all-IsMade 5 ident 2 part_text sender (λ i. 5) (λ i. codes "old") refl (omega arith)
      (λ i. ground arith) (λ i. omega arith) 1 traffic fresh (omega arith)
      (tt, (omega arith, (tt, (omega arith, tt)))) (omega arith) (omega arith, (tt, tt)) refl refl
