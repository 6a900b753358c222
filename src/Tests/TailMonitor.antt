-- ===== src/Tests/TailMonitor.antt =====
-- A log that is rotated from `/a` to `/b`.
use iqlogger.Common.{◌≡◌, refl, true, false, none, some, [], ◌∷◌, codes, bytes_eq, arith}
use iqlogger.Common.Table.{bytes_key, lookup}
use iqlogger.Tail.Reader.{Reader, Stream, process}
use iqlogger.Tail.Monitor.{Monitor, Files, Event, create, move, run_events}
use iqlogger.Tail.Monitor.Rotation.{run_events_rotated}

abbrev stream : Stream
stream = record { size = some 5; read = λ o n. [] }

-- The open file is `/b` now.
abbrev files : Files
files = record {
  can_open = λ f. true;
  read_symlink = λ f. none;
  current_filename = λ r. some (codes "/b");
  stream = λ r. stream;
  saved_position = λ f. 0;
}

abbrev reader : Reader
reader = record {
  filename = codes "/a";
  symlink_path = none;
  is_open = true;
  position = 5;
  buffer = codes "xy";
  follow_only = false;
  save_state = true;
  first_read = false;
  messages = [];
  saved = [];
}

abbrev monitor : Monitor
monitor = record { table = (codes "/a", reader) ∷ []; erased = []; unwatched = [] }

abbrev event : Event
event = record { event_type = create; filename = codes "/b" }

run_events_rotated_example :
    (t : Monitor) × (run_events none false true
        ((files, record { event_type = move; filename = codes "/a" })
          ∷ (files, record { event_type = create; filename = codes "/b" })
          ∷ [])
        monitor
      ≡ some t)
    × (lookup (codes "/b") t.table ≡ process none stream (record reader { filename = codes "/b" }))
    × (lookup (codes "/a") t.table ≡ none)
unfolding lookup bytes_eq
run_events_rotated_example =
    run_events_rotated none false true monitor files files (codes "/a") (codes "/b") reader refl
      refl (ground arith) refl
