-- ===== src/Watches/Buffer.antt =====
-- What `InotifyServer::end_read` of src/inputs/tail/InotifyServer.cpp makes of the bytes of the
-- kernel: `struct inotify_event` on a little-endian machine.
pub mod Kernel
use iqlogger.Common.{
  ℕ, zero, suc, ◌+◌, ◌*◌, Option, none, some, List, [], ◌∷◌, ◌++◌, Bytes, ltb, ◌==◌, if◌then◌else◌,
  length, drop,
}
use iqlogger.Tail.Monitor.{EventType, create, modify, move, delete}
use mathlib.Core.Option

-- `Event` with its `TailSource`.
pub record Event : Type 0 where
  pub watch_descriptor : ℕ
  pub event_type : EventType
  pub filename : Bytes
  pub symlink_filename : Option Bytes

-- A field of four bytes at an offset; a byte behind the end is zero.
unfoldable pub word : Bytes → ℕ
word (a ∷ b ∷ c ∷ d ∷ rest) = a + 256 * b + 65_536 * c + 16_777_216 * d
word _ = 0

-- A C string.
unfoldable pub c_string : Bytes → Bytes
c_string [] = []
c_string (c ∷ cs) = if c == 0 then [] else c ∷ c_string cs

-- `switch (mask)`.
unfoldable pub event_type : ℕ → Option EventType
event_type mask =
    if mask == 0x100
    then some create
    else if mask == 0x200
    then some delete
    else if mask == 0x40
    then some move
    else if mask == 0x80
    then some create
    else if mask == 0x4000_0100
    then some create
    else if mask == 0x2
    then some modify
    else none

unfoldable pub with_event : Option EventType → ℕ → Bytes → List Event → List Event
with_event none wd name rest = rest
with_event (some t) wd name rest =
    record { watch_descriptor = wd; event_type = t; filename = name; symlink_filename = none }
    ∷ rest

-- The loop: the events that are notified, and the bytes that stay pending.
unfoldable pub read_events : ℕ → Bytes → Option (List Event × Bytes)
unfolding word c_string event_type with_event
read_events zero pending = none
read_events (suc fuel) pending =
    if ltb (length pending) 16
    then some ([], pending)
    else Option.map
        (λ (q : List Event × Bytes). (
          with_event (event_type (word (drop 4 pending))) (word pending)
              (c_string (drop 16 pending)) q.0,
          q.1,
        ))
        (read_events fuel (drop (16 + word (drop 12 pending)) pending))

-- `end_read` without an error: the bytes of one read go behind the pending ones.
unfoldable pub end_read : Bytes → Bytes → Option (List Event × Bytes)
unfolding read_events
end_read pending bytes = read_events (suc (length (pending ++ bytes))) (pending ++ bytes)

unfoldable pub then_events : List Event → Option (List Event × Bytes) → Option (List Event × Bytes)
then_events es o = Option.map (λ (q : List Event × Bytes). (es ++ q.0, q.1)) o

-- `begin_read` and `end_read` by turns.
unfoldable pub run_reads : Bytes → List Bytes → Option (List Event × Bytes)
unfolding end_read then_events
run_reads pending [] = some ([], pending)
run_reads pending (bytes ∷ reads) =
    Option.bind (end_read pending bytes) (λ q. then_events q.0 (run_reads q.1 reads))
