-- ===== src/Tail/Monitor.antt =====
-- The table of the readers: `TailMonitor` of src/inputs/tail/TailMonitor.cpp. What the file system
-- says is given: whether a new reader's file can be opened and which link it is, the name that an
-- open file has now, the stream over a file, and the saved position of a name. `none` is an exception
-- of the library: of `file_descriptor_source` for a file that cannot be opened, or of `read_symlink`
-- for the name of an open file. No handler but that of the thread takes it, so the thread ends.
pub mod Total
pub mod Names
pub mod Rotation
use iqlogger.Common.{
  ℕ, Bool, true, false, Option, none, some, List, [], ◌∷◌, ◌++◌, Bytes, bytes_eq, if◌then◌else◌,
}
use iqlogger.Common.Table.{bytes_key, lookup, assign, insert, erase}
use iqlogger.Tail.Reader.{Reader, Stream, Delimiter, process, flush}
use mathlib.Core.Option

-- `Event::EventType`.
pub data EventType : Type 0 where
  init create modify move delete unknown : EventType

pub record Event : Type 0 where
  pub event_type : EventType
  pub filename : Bytes

-- The readers by the names of their files; and the calls of `erasePosition` and `removeWatch`.
pub record Monitor : Type 0 where
  pub table : List (Bytes × Reader)
  pub erased : List Bytes
  pub unwatched : List Bytes

-- The file system, and the server of the saved positions, during one event.
pub record Files : Type 0 where
  pub can_open : Bytes → Bool
  pub read_symlink : Bytes → Option Bytes
  pub current_filename : Reader → Option Bytes
  pub stream : Reader → Stream
  pub saved_position : Bytes → ℕ

-- `move`: the reader gets the name that its file has now, and goes there in the table, if there
-- is none.
unfoldable pub move_record : Bytes → Bytes → Reader → Monitor → Monitor
move_record filename new r m =
    if bytes_eq new filename
    then m
    else record m { table = erase filename (insert new (record r { filename = new }) m.table) }

unfoldable pub move_found : Files → Bytes → Option Reader → Monitor → Option Monitor
unfolding move_record
move_found files filename none m = some m
move_found files filename (some r) m =
    Option.map (λ new. move_record filename new r m) (files.current_filename r)

unfoldable pub move_file : Files → Bytes → Monitor → Option Monitor
unfolding move_found
move_file files filename m = move_found files filename (lookup filename m.table) m

-- `remove`.
unfoldable pub remove_watch : Option Bytes → Monitor → Monitor
remove_watch none m = m
remove_watch (some path) m = record m { unwatched = m.unwatched ++ (path ∷ []) }

unfoldable pub remove_found : Bytes → Option Reader → Monitor → Monitor
unfolding remove_watch
remove_found filename none m = m
remove_found filename (some r) m =
    remove_watch r.symlink_path
      (record m { table = erase filename m.table; erased = m.erased ++ (filename ∷ []) })

unfoldable pub remove_file : Bytes → Monitor → Monitor
unfolding remove_found
remove_file filename m = remove_found filename (lookup filename m.table) m

module _ (delimiter : Delimiter) (follow_only save_state : Bool) where
  -- `createRecord`.
  abbrev pub opened_record : Files → Bytes → Reader
  opened_record files filename = record {
    filename = filename;
    symlink_path = files.read_symlink filename;
    is_open = true;
    position = if save_state then files.saved_position filename else 0;
    buffer = [];
    follow_only = follow_only;
    save_state = save_state;
    first_read = false;
    messages = [];
    saved = [];
  }

  unfoldable pub create_record : Files → Bytes → Option Reader
  create_record files filename =
      if files.can_open filename then some (opened_record files filename) else none

  -- The name is inserted, and a reader is created for it if it is new.
  unfoldable pub insert_record :
      Files → Bytes → Option Reader → List (Bytes × Reader) → Option (List (Bytes × Reader))
  unfolding create_record
  insert_record files filename (some r) table = some table
  insert_record files filename none table =
      Option.map (λ r. insert filename r table) (create_record files filename)

  -- `accessor->second->process()`.
  unfoldable pub process_record :
      Files → Bytes → Option Reader → List (Bytes × Reader) → Option (List (Bytes × Reader))
  process_record files filename none table = none
  process_record files filename (some r) table =
      Option.map (λ q. assign filename q table) (process delimiter (files.stream r) r)

  -- `modify`, and `create`, which calls it.
  unfoldable pub modify_file : Files → Bytes → Monitor → Option Monitor
  unfolding insert_record process_record Option.bind
  modify_file files filename m =
      Option.bind (insert_record files filename (lookup filename m.table) m.table) (λ table.
        Option.map (λ t. record m { table = t })
          (process_record files filename (lookup filename table) table))

  -- The switch of `run`.
  unfoldable pub on_event : Files → Event → Monitor → Option Monitor
  unfolding modify_file move_file remove_file
  on_event files event m = elim event.event_type [
    | init ↦ modify_file files event.filename m
    | create ↦ modify_file files event.filename m
    | modify ↦ modify_file files event.filename m
    | move ↦ move_file files event.filename m
    | delete ↦ some (remove_file event.filename m)
    | unknown ↦ some m
  ]

  -- The loop of `run`; the files may change between two events.
  unfoldable pub run_events : List (Files × Event) → Monitor → Option Monitor
  unfolding on_event
  run_events [] m = some m
  run_events ((files, event) ∷ events) m = Option.bind (on_event files event m) (run_events events)

-- `flush`, for every reader.
unfoldable pub flush_table : List (Bytes × Reader) → List (Bytes × Reader)
unfolding flush
flush_table [] = []
flush_table ((filename, r) ∷ table) = (filename, flush r) ∷ flush_table table

unfoldable pub flush_all : Monitor → Monitor
unfolding flush_table
flush_all m = record m { table = flush_table m.table }
