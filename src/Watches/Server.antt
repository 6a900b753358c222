-- ===== src/Watches/Server.antt =====
-- `InotifyServer` and `Watch::notify` of src/inputs/tail. The file system, the regular expressions
-- and `inotify_add_watch` are given. A notifier ends in that of an input: it makes an event a
-- notification of type `E`, and the notifications are kept in their order. The exceptions of the
-- library of the file system, but that of a directory that cannot be opened, and those of a pattern
-- that is no regular expression are left out.
pub mod Extends
pub mod Depth
pub mod Shared
use iqlogger.Common.{
  ℕ, zero, suc, Bool, true, false, Option, none, some, List, [], ◌∷◌, ◌++◌, Bytes, codes,
}
use iqlogger.Tail.Monitor.{EventType, init}
use iqlogger.Watches.Descriptors.{
  Watch, find_by_watch_descriptor, find_by_watch_path, add_watch as map_add,
  remove_watch as map_remove,
}
use iqlogger.Watches.Buffer.{Event}
use mathlib.Core.Option

-- An entry of a directory: its path, and the last part of it.
pub record Entry : Type 0 where
  pub path : Bytes
  pub filename : Bytes

pub record Files : Type 0 where
  pub is_directory : Bytes → Bool
  pub is_symlink : Bytes → Bool
  pub read_symlink : Bytes → Bytes
  pub parent_path : Bytes → Bytes
  pub regex_match : Bytes → Bytes → Bool
  pub directory_iterator : Bytes → Option (List Entry)
  pub inotify_add_watch : Bytes → Option ℕ

abbrev pub Notifier : Type 0 → Type 0
Notifier E = Event → E

pub record Server (E : Type 0) : Type 0 where
  pub watches : List (Watch (Notifier E))
  pub notified : List E

-- `makeWatchPath`.
unfoldable pub make_watch_path : Files → Bytes → Bytes × Bytes
make_watch_path files path = elim (files.is_directory path) as (λ _. Bytes × Bytes) [
  | true ↦ (path, path ++ codes "/(.*)")
  | false ↦ (files.parent_path path, path)
]

abbrev pub initial : ℕ → Bytes → Event
initial wd name = record {
  watch_descriptor = wd;
  event_type = init;
  filename = name;
  symlink_filename = none;
}

module _ {E : Type 0} where
  -- The notifier for what a link leads to: it sends the file's name and the link's.
  unfoldable pub notifier_handler : Bytes → Notifier E → Notifier E
  notifier_handler link notifier event = notifier (record event { symlink_filename = some link })

  abbrev pub emit : Notifier E → Event → Server E → Server E
  emit notifier event s = record s { notified = s.notified ++ (notifier event ∷ []) }

  module _ (files : Files) where
    -- What a file that matches is: a directory, a link, or a file. `add` is `addWatch`.
    module _ (add : Bytes → Notifier E → Server E → Option (Server E)) where
      -- `Watch::notify`.
      unfoldable pub watch_notify : Watch (Notifier E) → Event → Server E → Option (Server E)
      unfolding notifier_handler
      watch_notify w event s =
          let filename = w.directory ++ (codes "/" ++ event.filename) in
          let told = record event { filename = filename; symlink_filename = none } in
          elim (files.regex_match filename w.pattern) [
            | false ↦ some s
            | true ↦ elim (files.is_directory filename) [
              | true ↦ add filename w.notifier s
              | false ↦ elim (files.is_symlink filename) [
                | true ↦
                    Option.map (emit w.notifier told)
                      (add (files.read_symlink filename) (notifier_handler filename w.notifier) s)
                | false ↦ some (emit w.notifier told s)
              ]
            ]
          ]

      unfoldable pub notify_found :
          Option (Watch (Notifier E)) → Event → Server E → Option (Server E)
      unfolding watch_notify
      notify_found none event s = some s
      notify_found (some w) event s = watch_notify w event s

      -- `InotifyServer::notify`.
      unfoldable pub notify : Event → Server E → Option (Server E)
      unfolding notify_found
      notify event s =
          notify_found (find_by_watch_descriptor event.watch_descriptor s.watches) event s

      -- The body of the loop of `addWatch` over a directory.
      unfoldable pub visit : ℕ → Bytes → Notifier E → Entry → Server E → Option (Server E)
      unfolding notify notifier_handler
      visit wd pattern notifier entry s = elim (files.regex_match entry.path pattern) [
        | false ↦ some s
        | true ↦ elim (files.is_directory entry.path) [
          | true ↦ add entry.path notifier s
          | false ↦ elim (files.is_symlink entry.path) [
            | true ↦
                Option.bind
                  (add (files.read_symlink entry.path) (notifier_handler entry.path notifier) s)
                  (notify (initial wd entry.filename))
            | false ↦ notify (initial wd entry.filename) s
          ]
        ]
      ]

      unfoldable pub visit_all : ℕ → Bytes → Notifier E → List Entry → Server E → Option (Server E)
      unfolding visit
      visit_all wd pattern notifier [] s = some s
      visit_all wd pattern notifier (entry ∷ entries) s =
          Option.bind (visit wd pattern notifier entry s) (visit_all wd pattern notifier entries)

      unfoldable pub visit_found :
          ℕ → Bytes → Notifier E → Option (List Entry) → Server E → Option (Server E)
      unfolding visit_all
      visit_found wd pattern notifier none s = some s
      visit_found wd pattern notifier (some entries) s = visit_all wd pattern notifier entries s

      -- `addWatch` behind `inotify_add_watch`.
      unfoldable pub watch_directory :
          Bytes × Bytes → Notifier E → Option ℕ → Server E → Option (Server E)
      unfolding visit_found
      watch_directory path notifier none s = some s
      watch_directory (directory, pattern) notifier (some wd) s =
          visit_found wd pattern notifier (files.directory_iterator directory) (record s {
            watches =
                map_add
                  (record {
                    watch_descriptor = wd;
                    directory = directory;
                    pattern = pattern;
                    notifier = notifier;
                  })
                  s.watches;
          })

    -- `addWatch`; the fuel bounds the depth of the directories and links. `none`: the fuel is used
    -- up.
    unfoldable pub add_watch : ℕ → Bytes → Notifier E → Server E → Option (Server E)
    unfolding make_watch_path watch_directory
    add_watch zero path notifier s = none
    add_watch (suc depth) path notifier s =
        let (directory, pattern) = make_watch_path files path in
        watch_directory (add_watch depth) (directory, pattern) notifier
          (files.inotify_add_watch directory) s

    unfoldable pub remove_found : Option (Watch (Notifier E)) → Server E → Server E
    remove_found none s = s
    remove_found (some w) s = record s { watches = map_remove w s.watches }

    -- `removeWatch`; an error of `inotify_rm_watch` is only logged.
    unfoldable pub remove_watch : Bytes → Server E → Server E
    unfolding remove_found
    remove_watch path s =
        let (directory, pattern) = make_watch_path files path in
        remove_found (find_by_watch_path directory pattern s.watches) s

    -- The events of a read, each notified.
    unfoldable pub notify_all : ℕ → List Event → Server E → Option (Server E)
    unfolding notify
    notify_all depth [] s = some s
    notify_all depth (event ∷ events) s =
        Option.bind (notify (add_watch depth) event s) (notify_all depth events)
