-- ===== src/Tcp.antt =====
-- The connections of the inputs over TCP: `tcp_connection` of src/inputs/gelf/tcp/Server.h and
-- src/inputs/json/tcp/Server.h, which differ in the type of the record alone.
-- `async_read_until` of Boost is given: on the content of the stream buffer, `some n` if it holds a
-- zero byte, n the number of bytes up to and with the first one, and `none` if it waits for more.
pub mod Frames
use iqlogger.Common.{
  ℕ, zero, suc, ◌+◌, ◌-◌, ◌≤◌, ◌≡◌, ◌≢◌, Bool, true, false, Option, none, some, List, [], ◌∷◌, ◌++◌,
  Bytes, leb, ltb, ◌==◌, if◌then◌else◌, length, take, drop, All,
}

-- The connection: the stream buffer, the records that were handed to the input queue, and whether
-- the socket is open.
pub record Connection : Type 0 where
  pub buffer : Bytes
  pub enqueued : List Bytes
  pub is_open : Bool

-- How a read ends.
pub data ReadResult : Type 0 where
  success eof failure : ReadResult

-- What `async_read_until` promises.
pub record ReadsUntil (read_until : Bytes → Option ℕ) : Type 0 where
  pub waits : (b : Bytes) → All (λ c. c ≢ 0) b → read_until b ≡ none
  pub finds :
      (front rest : Bytes)
      → All (λ c. c ≢ 0) front
      → read_until (front ++ (0 ∷ rest)) ≡ some (length front + 1)

-- `process`: the bytes in front of the zero byte are one record.
unfoldable pub process : ℕ → Connection → Connection
process bytes_transferred c = record c {
  enqueued = c.enqueued ++ (take (bytes_transferred - 1) c.buffer ∷ []);
}

-- `if (bytes_transferred > 0)`.
unfoldable pub take_record : ℕ → Connection → Connection
unfolding process
take_record n c = if ltb 0 n then record (process n c) { buffer = drop n c.buffer } else c

-- `handle_read`; `next` is the next `do_read`.
unfoldable pub handle_read : ReadResult → ℕ → Connection → (Connection → Connection) → Connection
unfolding take_record
handle_read success n c next = next (take_record n c)
handle_read eof n c next = record (take_record n c) { is_open = false }
handle_read failure n c next = take_record n c

module _ (read_until : Bytes → Option ℕ) where
  -- A read that has found its end is handled; one that has not waits.
  unfoldable pub on_read : Option ℕ → Connection → (Connection → Connection) → Connection
  unfolding handle_read
  on_read none c next = c
  on_read (some n) c next = handle_read success n c next

  -- `do_read`, until it waits: each round takes one byte at least, so the size of the buffer is
  -- enough fuel.
  unfoldable pub do_read : ℕ → Connection → Connection
  unfolding on_read
  do_read zero c = c
  do_read (suc fuel) c = on_read (read_until c.buffer) c (do_read fuel)

  -- A block arrives.
  unfoldable pub receive : Bytes → Connection → Connection
  unfolding do_read
  receive block c =
      let buffer = c.buffer ++ block in do_read (suc (length buffer)) (record c { buffer = buffer })

  unfoldable pub receive_all : List Bytes → Connection → Connection
  receive_all [] c = c
  receive_all (b ∷ bs) c = receive_all bs (receive b c)

abbrev pub accepted : Connection
accepted = record { buffer = []; enqueued = []; is_open = true }
