-- ===== src/Tests/DirectoryWatches.antt =====
-- A directory `/v` with a file, a directory in it, and a link to a file elsewhere.
use iqlogger.Common.{
  length, ◌<◌, ℕ, ◌≡◌, refl, Bool, true, false, ◌||◌, ◌&&◌, Option, none, some, List, [], ◌∷◌, ◌++◌,
  Bytes, codes, bytes_eq, if◌then◌else◌, arith, inl, inr, joined,
}
use mathlib.Core.Option
use mathlib.Core.Option.{some-injective}
use iqlogger.Tail.Monitor.{create, modify, delete}
use iqlogger.Watches.Descriptors.{Watch, find_by_watch_descriptor, add_watch as map_add}
use iqlogger.Watches.Descriptors.Refinement.{
  Call, add, remove, run_calls, run_indexes, indexes, run_calls-indexes,
}
use iqlogger.Watches.Buffer.{Event, event_type, with_event, run_reads, end_read}
use iqlogger.Watches.Buffer.Kernel.{KernelEvent, IsKernel, encode, run_reads-kernel, end_read_total}
use iqlogger.Watches.Descriptors.Unique.{IsUnique}
use iqlogger.Watches.Server.Extends.{Extended, add_watch-Extended}
use iqlogger.Watches.Server.Shared.{add_watch_shared}
use iqlogger.Watches.Server.{Entry, Files, Notifier, Server, notify, add_watch}

abbrev pub entry : Bytes → Bytes → Entry
entry d name = record { path = d ++ (codes "/" ++ name); filename = name }

abbrev pub starts : Bytes → Bytes → Bool
starts [] b = true
starts (x ∷ xs) [] = false
starts (x ∷ xs) (y ∷ ys) = if bytes_eq (x ∷ []) (y ∷ []) then starts xs ys else false

-- A pattern is a path, or all that is in a directory.
abbrev pub matches : Bytes → Bytes → Bool
matches name pattern =
    bytes_eq name pattern
    || (bytes_eq pattern (codes "/v/(.*)") && starts (codes "/v/") name)
    || (bytes_eq pattern (codes "/v/d/(.*)") && starts (codes "/v/d/") name)

abbrev tree : Files
tree = record {
  is_directory = λ p. bytes_eq p (codes "/v") || bytes_eq p (codes "/v/d");
  is_symlink = λ p. bytes_eq p (codes "/v/l");
  read_symlink = λ p. codes "/w/t";
  parent_path = λ p. if starts (codes "/w/") p then codes "/w" else codes "/v";
  regex_match = matches;
  directory_iterator = λ d.
      if bytes_eq d (codes "/v")
      then some (entry d (codes "a") ∷ entry d (codes "d") ∷ entry d (codes "l") ∷ [])
      else if bytes_eq d (codes "/v/d")
      then some (entry d (codes "b") ∷ [])
      else if bytes_eq d (codes "/w")
      then some (entry d (codes "t") ∷ [])
      else none;
  inotify_add_watch = λ d.
      if bytes_eq d (codes "/v")
      then some 1
      else if bytes_eq d (codes "/v/d")
      then some 2
      else if bytes_eq d (codes "/w")
      then some 3
      else none;
}

-- The notifier of the input: the file, and the link that leads to it.
abbrev pub notifier : Notifier (Bytes × Option Bytes)
notifier event = (event.filename, event.symlink_filename)

abbrev pub empty : Server (Bytes × Option Bytes)
empty = record { watches = []; notified = [] }

-- The file in `/w` is told of twice: the link is followed by `addWatch` and by `Watch::notify`.
told :
    Option.map
      (λ (s : Server (Bytes × Option Bytes)). s.notified)
      (add_watch tree 4 (codes "/v") notifier empty)
    ≡ some (
        (codes "/v/a", none)
        ∷ (codes "/v/d/b", none)
        ∷ (codes "/w/t", some (codes "/v/l"))
        ∷ (codes "/w/t", some (codes "/v/l"))
        ∷ (codes "/v/l", none)
        ∷ [])
unfolding add_watch Option.bind bytes_eq find_by_watch_descriptor map_add
told = refl

add_watch-Extended_example : Extended empty (add_watch tree 4 (codes "/v") notifier empty)
add_watch-Extended_example = add_watch-Extended tree 4 (codes "/v") notifier empty

-- `/v/a` is watched, and then `/v/b`.
abbrev only_a : Server (Bytes × Option Bytes)
only_a = record {
  watches =
      record {
        watch_descriptor = 1;
        directory = codes "/v";
        pattern = codes "/v/a";
        notifier = notifier;
      }
      ∷ [];
  notified = [];
}

abbrev changed : Event
changed = record {
  watch_descriptor = 1;
  event_type = modify;
  filename = codes "b";
  symlink_filename = none;
}

add_watch_shared_example : notify tree (add_watch tree 4) changed only_a ≡ some only_a
unfolding add_watch bytes_eq find_by_watch_descriptor Option.bind map_add
add_watch_shared_example =
    add_watch_shared tree 4 (codes "/v/b") notifier only_a only_a _ changed refl refl refl refl

-- Three of the kernel's events in two reads, the second of which is not notified.
abbrev created : KernelEvent
created = record { wd = 1; mask = 0x100; cookie = 0; name = codes "ab"; padding = 14 }

abbrev closed : KernelEvent
closed = record { wd = 300; mask = 0x8; cookie = 0; name = []; padding = 0 }

abbrev gone : KernelEvent
gone = record { wd = 2; mask = 0x200; cookie = 0; name = codes "c"; padding = 15 }

created-IsKernel : IsKernel created
created-IsKernel = record {
  wd_fits = ground arith;
  mask_fits = ground arith;
  length_fits = ground arith;
  text = (ground arith, (ground arith, tt));
  ended = inr (ground arith);
}

closed-IsKernel : IsKernel closed
unfolding event_type
closed-IsKernel = record {
  wd_fits = ground arith;
  mask_fits = ground arith;
  length_fits = ground arith;
  text = tt;
  ended = inl refl;
}

gone-IsKernel : IsKernel gone
gone-IsKernel = record {
  wd_fits = ground arith;
  mask_fits = ground arith;
  length_fits = ground arith;
  text = (ground arith, tt);
  ended = inr (ground arith);
}

run_reads-kernel_example :
    run_reads [] (joined (encode created ∷ encode closed ∷ []) ∷ encode gone ∷ [])
    ≡ some (
      (record {
        watch_descriptor = 1;
        event_type = create;
        filename = codes "ab";
        symlink_filename = none;
      }
          ∷ record {
            watch_descriptor = 2;
            event_type = delete;
            filename = codes "c";
            symlink_filename = none;
          }
          ∷ []),
      [],
    )
unfolding with_event event_type
run_reads-kernel_example =
    run_reads-kernel ((created ∷ closed ∷ []) ∷ (gone ∷ []) ∷ [])
      ((created-IsKernel, (closed-IsKernel, tt)), ((gone-IsKernel, tt), tt))

abbrev watch : ℕ → Bytes → Watch ℕ
watch wd pattern = record {
  watch_descriptor = wd;
  directory = codes "/v";
  pattern = pattern;
  notifier = wd;
}

abbrev calls : List (Call ℕ)
calls =
    add (watch 1 (codes "/v/a"))
    ∷ add (watch 1 (codes "/v/b"))
    ∷ add (watch 2 (codes "/v/a"))
    ∷ remove (watch 1 [])
    ∷ add (watch 2 (codes "/v/a"))
    ∷ []

run_calls-indexes_example :
    (indexes (run_calls calls []) ≡ run_indexes calls (indexes [])) × IsUnique (run_calls calls [])
run_calls-indexes_example = run_calls-indexes calls [] tt

end_read_total_example :
    (q : List Event × Bytes) × (end_read (9 ∷ []) (1 ∷ 0 ∷ []) ≡ some q) × (length q.1 < 16)
end_read_total_example = end_read_total (9 ∷ []) (1 ∷ 0 ∷ [])
