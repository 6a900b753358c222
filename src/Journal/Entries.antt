-- ===== src/Journal/Entries.antt =====
-- What is read of the journal.
use mathlib.Core.List.{map-append}
use iqlogger.Common.{
  ℕ, zero, suc, ◌≡◌, ◌≢◌, refl, sym, ap, ◌∙◌, Bool, true, false, Option, none, some, List, [], ◌∷◌,
  ◌++◌, map, append-nil, append_assoc, Bytes, ◌==◌, bytes_eq, if◌then◌else◌, All, arith,
}
use iqlogger.Common.Table.{bytes_key, lookup, insert, or_else, lookup-insert_or}
use iqlogger.Journal.{
  split_line, insert_line, read_data, Entry, Message, Reader, message_of, read_entries,
  read_journal, Processed, nop, append, invalidate, unexpected, handle_receive, Step, written,
  receive, run_steps,
}

-- A field as the journal gives it.
abbrev pub print_field : (Bytes × Bytes) → Bytes
print_field (key, value) = key ++ (b'=' ∷ value)

-- The key has no sign of equality.
abbrev pub IsFieldKey : Bytes → Type 0
IsFieldKey key = All (λ c. c ≢ b'=') key

split_line-print_field :
    (key value : Bytes) → IsFieldKey key → split_line (print_field (key, value)) ≡ some (key, value)
unfolding split_line
split_line-print_field [] value h = refl
split_line-print_field (c ∷ cs) value h =
    let other : (c == b'=') ≡ false = ground (arith, h.0) in
    rw (other, split_line-print_field cs value h.1) refl

Option-right : {V : Type 0} (o : Option V) → o ≡ or_else o none
Option-right none = refl
Option-right (some v) = refl

or_else_if :
    {V : Type 0} (o : Option V) (b : Bool) (v : V) (rest : Option V)
    → or_else (or_else o (if b then some v else none)) rest ≡ or_else o (if b then some v else rest)
or_else_if (some w) b v rest = refl
or_else_if none true v rest = refl
or_else_if none false v rest = refl

lookup-read_data :
    (key : Bytes) (fields values : List (Bytes × Bytes))
    → All (λ (f : Bytes × Bytes). IsFieldKey f.0) fields
    → lookup key (read_data (map print_field fields) values)
      ≡ or_else (lookup key values) (lookup key fields)
unfolding read_data insert_line lookup
lookup-read_data key [] values h = Option-right (lookup key values)
lookup-read_data key ((k, v) ∷ fields) values h =
    ap
      (λ (o : Option (Bytes × Bytes)).
        lookup key (read_data (map print_field fields) (insert_line o values)))
      (split_line-print_field k v h.0)
    ∙ lookup-read_data key fields (insert k v values) h.1
    ∙ ap (λ (o : Option Bytes). or_else o (lookup key fields)) (lookup-insert_or k key v values)
    ∙ or_else_if (lookup key values) (bytes_eq k key) v (lookup key fields)

-- An entry whose data are fields, the keys without a sign of equality: the message has the value of
-- the first field of a key, all of it, and the time of the entry.
pub message_of-fields :
    (fields : List (Bytes × Bytes)) (usec : ℕ) (key : Bytes)
    → All (λ (f : Bytes × Bytes). IsFieldKey f.0) fields
    → (lookup key (message_of (record { lines = map print_field fields; usec = usec })).values
        ≡ lookup key fields)
      × ((message_of (record { lines = map print_field fields; usec = usec })).usec ≡ usec)
unfolding message_of lookup
message_of-fields fields usec key h = (lookup-read_data key fields [] h, refl)

-- The entries that are written, in their order.
abbrev pub entries_of : List Step → List Entry
entries_of [] = []
entries_of (written e ∷ steps) = e ∷ entries_of steps
entries_of (receive error p ∷ steps) = entries_of steps

-- The messages that were queued and those of the entries that are not read yet.
abbrev pub all_messages : Reader → List Message
all_messages r = r.queued ++ map message_of r.unread

message_next :
    (queued : List Message) (e : Entry) (es : List Entry)
    → (queued ++ (message_of e ∷ [])) ++ map message_of es ≡ queued ++ map message_of (e ∷ es)
message_next queued e es = append_assoc queued (message_of e ∷ []) (map message_of es)

all_messages-read_entries :
    (failing : Option ℕ) (es : List Entry) (queued : List Message)
    → all_messages (read_entries failing es queued) ≡ queued ++ map message_of es
unfolding read_entries
all_messages-read_entries none [] queued = refl
all_messages-read_entries (some n) [] queued = refl
all_messages-read_entries none (e ∷ es) queued =
    all_messages-read_entries none es (queued ++ (message_of e ∷ [])) ∙ message_next queued e es
all_messages-read_entries (some zero) (e ∷ es) queued = refl
all_messages-read_entries (some (suc n)) (e ∷ es) queued =
    all_messages-read_entries (some n) es (queued ++ (message_of e ∷ [])) ∙ message_next queued e es

read_entries-unread :
    (es : List Entry) (queued : List Message) → (read_entries none es queued).unread ≡ []
unfolding read_entries
read_entries-unread [] queued = refl
read_entries-unread (e ∷ es) queued = read_entries-unread es (queued ++ (message_of e ∷ []))

all_messages-receive :
    (error : Bool) (p : Processed) (r : Reader)
    → all_messages (handle_receive error p r) ≡ all_messages r
unfolding handle_receive read_journal
all_messages-receive true p r = refl
all_messages-receive false (append failing) r = all_messages-read_entries failing r.unread r.queued
all_messages-receive false nop r = refl
all_messages-receive false invalidate r = refl
all_messages-receive false unexpected r = refl

all_messages-run :
    (steps : List Step) (r : Reader)
    → all_messages (run_steps steps r) ≡ all_messages r ++ map message_of (entries_of steps)
unfolding run_steps
all_messages-run [] r = sym (append-nil (all_messages r))
all_messages-run (written e ∷ steps) r =
    all_messages-run steps (record r { unread = r.unread ++ (e ∷ []) })
    ∙ ap (λ (x : List Message). (r.queued ++ x) ++ map message_of (entries_of steps))
        (map-append message_of r.unread (e ∷ []))
    ∙ ap (λ (x : List Message). x ++ map message_of (entries_of steps))
        (sym (append_assoc r.queued (map message_of r.unread) (message_of e ∷ [])))
    ∙ append_assoc (all_messages r) (message_of e ∷ []) (map message_of (entries_of steps))
all_messages-run (receive error p ∷ steps) r =
    all_messages-run steps (handle_receive error p r)
    ∙ ap (λ (x : List Message). x ++ map message_of (entries_of steps))
        (all_messages-receive error p r)

-- Whatever is written to the journal, and whatever the descriptor and the library report in the
-- meantime, errors of the descriptor and calls of `sd_journal_next` that fail and leave entries
-- unread included: when the library reports an addition and no call of `sd_journal_next` fails then,
-- all that was written before is handed to the queue, each entry once and in its order, and nothing
-- stays unread.
pub run_steps-append :
    (steps : List Step) (r : Reader)
    → ((handle_receive false (append none) (run_steps steps r)).queued
        ≡ all_messages r ++ map message_of (entries_of steps))
      × ((handle_receive false (append none) (run_steps steps r)).unread ≡ [])
unfolding handle_receive read_journal
run_steps-append steps r =
    let last : Reader = run_steps steps r in
    let empty = read_entries-unread last.unread last.queued in
    (
      sym (append-nil _)
          ∙ ap
              (λ (es : List Entry).
                (read_entries none last.unread last.queued).queued ++ map message_of es)
              (sym empty)
          ∙ all_messages-read_entries none last.unread last.queued
          ∙ all_messages-run steps r,
      empty,
    )
