-- ===== src/Journal.antt =====
-- The reader of the journal: src/inputs/journal/JournalReader.cpp. The journal's library is given by
-- the results of its calls; a record that is handed to the queue of the input is kept here, whether
-- the queue takes it or not.
pub mod Entries
use iqlogger.Common.{
  ℕ, zero, suc, Bool, true, false, Option, none, some, List, [], ◌∷◌, ◌++◌, Bytes, codes, ltb, ◌==◌,
  if◌then◌else◌, length, append_assoc,
}
use iqlogger.Common.Table.{bytes_key, insert}
use mathlib.Core.Option

-- `line.find('=')`, with the parts in front of it and behind it.
unfoldable pub split_line : Bytes → Option (Bytes × Bytes)
split_line [] = none
split_line (c ∷ cs) =
    let rest = Option.map (λ (q : Bytes × Bytes). (c ∷ q.0, q.1)) (split_line cs) in
    if c == b'=' then some ([], cs) else rest

unfoldable pub insert_line : Option (Bytes × Bytes) → List (Bytes × Bytes) → List (Bytes × Bytes)
insert_line none values = values
insert_line (some (key, value)) values = insert key value values

-- The loop over the data of an entry.
unfoldable pub read_data : List Bytes → List (Bytes × Bytes) → List (Bytes × Bytes)
unfolding split_line insert_line
read_data [] values = values
read_data (line ∷ lines) values = read_data lines (insert_line (split_line line) values)

-- An entry of the journal: its data, and its time in microseconds.
pub record Entry : Type 0 where
  pub lines : List Bytes
  pub usec : ℕ

pub record Message : Type 0 where
  pub values : List (Bytes × Bytes)
  pub usec : ℕ

-- The entries that `sd_journal_next` has still to give, and the messages for the queue.
pub record Reader : Type 0 where
  pub unread : List Entry
  pub queued : List Message

unfoldable pub message_of : Entry → Message
unfolding read_data
message_of e = record { values = read_data e.lines []; usec = e.usec }

-- The loop of `read_journal`. `some n`: the call of `sd_journal_next` after n entries fails, and the
-- entries that it has not given stay.
unfoldable pub read_entries : Option ℕ → List Entry → List Message → Reader
unfolding message_of
read_entries none [] queued = record { unread = []; queued = queued }
read_entries (some n) [] queued = record { unread = []; queued = queued }
read_entries none (e ∷ es) queued = read_entries none es (queued ++ (message_of e ∷ []))
read_entries (some zero) (e ∷ es) queued = record { unread = e ∷ es; queued = queued }
read_entries (some (suc n)) (e ∷ es) queued =
    read_entries (some n) es (queued ++ (message_of e ∷ []))

unfoldable pub read_journal : Option ℕ → Reader → Reader
unfolding read_entries
read_journal failing r = read_entries failing r.unread r.queued

-- What `sd_journal_process` returns; with an addition, which call of `sd_journal_next` fails then.
pub data Processed : Type 0 where
  nop : Processed
  append : Option ℕ → Processed
  invalidate : Processed
  unexpected : Processed

-- `handle_receive`: an error of the descriptor, or none.
unfoldable pub handle_receive : Bool → Processed → Reader → Reader
unfolding read_journal
handle_receive true p r = r
handle_receive false (append failing) r = read_journal failing r
handle_receive false _ r = r

-- What happens: an entry is written, or the descriptor becomes readable.
pub data Step : Type 0 where
  written : Entry → Step
  receive : Bool → Processed → Step

unfoldable pub run_steps : List Step → Reader → Reader
unfolding handle_receive
run_steps [] r = r
run_steps (written e ∷ steps) r = run_steps steps (record r { unread = r.unread ++ (e ∷ []) })
run_steps (receive error p ∷ steps) r = run_steps steps (handle_receive error p r)

-- The results of the library's calls in the constructor: whether each is no error.
pub record Library : Type 0 where
  pub open_ok : Bool
  pub fd_ok : Bool
  pub match_ok : Bytes → Bool
  pub disjunction_ok : Bool
  pub seek_tail_ok : Bool
  pub previous_ok : Bool
  pub next_ok : Bool

-- The matches of the units; `none`: an exception.
unfoldable pub add_matches : Library → List Bytes → Option (List Bytes)
add_matches library [] = some []
add_matches library (unit ∷ units) =
    let filter = codes "_SYSTEMD_UNIT=" ++ unit in
    let rest = add_matches library units in
    if library.match_ok filter then Option.map (◌∷◌ filter) rest else none

-- The filter of the journal: `add_disjunction` if there is more than one unit.
unfoldable pub add_units : Library → Option (List Bytes) → Option (List Bytes × Bool)
unfolding add_matches
add_units library none = some ([], false)
add_units library (some units) = Option.bind (add_matches library units) (λ filters.
    if ltb 1 (length units)
    then (if library.disjunction_ok then some (filters, true) else none)
    else some (filters, false))

unfoldable pub if_ok : {A : Type 0} → Bool → Option A → Option A
if_ok true o = o
if_ok false o = none

-- The constructor: the filter that the journal is read with.
unfoldable pub open_journal : Library → Option (List Bytes) → Option (List Bytes × Bool)
unfolding if_ok add_units
open_journal library units = if_ok library.open_ok (
    if_ok library.fd_ok (
      Option.bind (add_units library units) (λ filter.
        if_ok library.seek_tail_ok
          (if_ok library.previous_ok (if_ok library.next_ok (some filter))))))
