-- ===== src/Tests/JournalReader.antt =====
-- Three entries of the journal, the third of which is written after the last addition is reported.
use iqlogger.Common.{◌≡◌, refl, false, true, none, some, List, [], ◌∷◌, codes, bytes_eq, Bytes}
use iqlogger.Common.Table.{bytes_key, insert}
use iqlogger.Journal.{
  Entry, Reader, message_of, append, handle_receive, Step, written, receive, run_steps, Library,
  open_journal, read_data, split_line,
}
use iqlogger.Journal.Entries.{run_steps-append}
use mathlib.Core.Option

abbrev first : Entry
first = record { lines = codes "MESSAGE=a=b" ∷ codes "junk" ∷ codes "MESSAGE=c" ∷ []; usec = 5 }

message_of_run :
    message_of first ≡ record { values = (codes "MESSAGE", codes "a=b") ∷ []; usec = 5 }
unfolding message_of read_data split_line bytes_eq insert
message_of_run = refl

abbrev fields : List (Bytes × Bytes)
fields = (codes "A", codes "x=y") ∷ (codes "A", codes "z") ∷ []

abbrev empty : Reader
empty = record { unread = []; queued = [] }

abbrev steps : List Step
steps =
    written first
    ∷ receive true (append none)
    ∷ written first
    ∷ receive false (append (some 1))
    ∷ []

run_steps-append_example :
    ((handle_receive false (append none) (run_steps steps empty)).queued
      ≡ message_of first ∷ message_of first ∷ [])
    × ((handle_receive false (append none) (run_steps steps empty)).unread ≡ [])
run_steps-append_example = run_steps-append steps empty

abbrev library : Library
library = record {
  open_ok = true;
  fd_ok = true;
  match_ok = λ b. true;
  disjunction_ok = true;
  seek_tail_ok = true;
  previous_ok = true;
  next_ok = true;
}

open_journal_run :
    open_journal library (some (codes "a" ∷ codes "b" ∷ []))
    ≡ some (codes "_SYSTEMD_UNIT=a" ∷ codes "_SYSTEMD_UNIT=b" ∷ [], true)
unfolding open_journal Option.bind
open_journal_run = refl
