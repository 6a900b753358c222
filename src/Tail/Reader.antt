-- ===== src/Tail/Reader.antt =====
-- The reader of one file: `PointersTableInternalRecord` of src/inputs/tail/TailMonitor.h and
-- TailMonitor.cpp. The stream over the file and the matches of the pattern are given. The calls of
-- `processMessage` and of `SavePositionServer::savePosition` are recorded in their order.
-- A position is a native number: the positions that a state directory with a negative number in
-- it would give are left out.
use iqlogger.Common.{
  ℕ, zero, suc, ◌+◌, ◌-◌, ◌*◌, Bool, true, false, not, ◌&&◌, Option, none, some, List, [], ◌∷◌,
  ◌++◌, Bytes, ltb, ◌==◌, if◌then◌else◌, length, min,
}
use mathlib.Core.Option
use iqlogger.Common.Int.{ℤ, sub_ℕ}
use iqlogger.Tail.Lines.{split_lines}
use iqlogger.Tail.Matches.{Split, split_matches}

pub record Reader : Type 0 where
  pub filename : Bytes
  pub symlink_path : Option Bytes
  pub is_open : Bool
  pub position : ℕ
  pub buffer : Bytes
  pub follow_only : Bool
  pub save_state : Bool
  pub first_read : Bool
  pub messages : List Bytes
  pub saved : List (Bytes × ℤ)

-- `read_buffer_size`.
abbrev pub read_buffer_size : ℕ
read_buffer_size = 4096 * 1024

-- The file, as the stream shows it during one call of `process`: its size, `none` for -1, and
-- what a read of so many bytes at an offset gives.
pub record Stream : Type 0 where
  pub size : Option ℕ
  pub read : ℕ → ℕ → Bytes

-- The pattern at which a message starts: the positions of its matches in a buffer.
abbrev pub Delimiter : Type 0
Delimiter = Option (Bytes → List ℕ)

unfoldable pub with_split : Split → Reader → Reader
with_split s r = record r { messages = r.messages ++ s.messages; buffer = s.pending }

unfoldable pub with_lines : Option (List Bytes) → Reader → Reader
with_lines none r = r
with_lines (some ms) r = record r { messages = r.messages ++ ms }

unfoldable pub process_buffer : Delimiter → Bytes → Reader → Reader
unfolding with_split with_lines
process_buffer (some matches) block r = with_split (split_matches (matches block) r.buffer block) r
process_buffer none block r = with_lines (split_lines block) r

unfoldable pub save_position : Reader → Reader
save_position r = record r {
  saved =
      if r.save_state
      then r.saved ++ ((r.filename, sub_ℕ r.position (length r.buffer)) ∷ [])
      else r.saved;
}

-- The body of the loop: the block is handled, and the position moves behind it.
unfoldable pub take_block : Delimiter → Bytes → Reader → Reader
take_block delimiter block r =
    let q = process_buffer delimiter block r in record q { position = q.position + length block }

unfoldable pub is_symlink : Option Bytes → Bool
is_symlink none = false
is_symlink (some p) = true

module _ (delimiter : Delimiter) (stream : Stream) where
  -- `while (total_read < added)`; the stream stands at `start + total_read`. `none` is out of
  -- fuel.
  unfoldable pub read_loop : ℕ → ℕ → ℕ → ℕ → Reader → Option Reader
  read_loop zero start added total r = none
  read_loop (suc fuel) start added total r =
      let block = stream.read (start + total) (min read_buffer_size (added - total)) in
      let rest = read_loop fuel start added (total + length block) (take_block delimiter block r) in
      if ltb total added then (if length block == 0 then some r else rest) else some r

  -- From the detected growth on.
  unfoldable pub read_added : ℕ → Reader → Option Reader
  read_added filesize r =
      let added = filesize - r.position in
      if ltb 0 added && (not r.first_read && r.follow_only)
      then some (record r { position = filesize; first_read = true })
      else if ltb 0 added
      then Option.map save_position (read_loop (suc added) (filesize - added) added 0 r)
      else some (save_position r)

  unfoldable pub process_size : Option ℕ → Reader → Option Reader
  unfolding read_added
  process_size none r = some (record r { position = 0 })
  process_size (some filesize) r =
      read_added filesize (if ltb filesize r.position then record r { position = 0 } else r)

  unfoldable pub process : Reader → Option Reader
  unfolding process_size is_symlink
  process r =
      if is_symlink r.symlink_path
      then some r
      else if not r.is_open
      then some r
      else process_size stream.size r

-- `flush`, which the timer calls.
unfoldable pub flush_buffer : Bytes → Reader → Reader
flush_buffer [] r = r
flush_buffer (c ∷ cs) r =
    save_position (record r { messages = r.messages ++ ((c ∷ cs) ∷ []); buffer = [] })

unfoldable pub flush : Reader → Reader
unfolding flush_buffer
flush r = flush_buffer r.buffer r
