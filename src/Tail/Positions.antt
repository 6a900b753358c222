-- ===== src/Tail/Positions.antt =====
-- Saved positions: src/inputs/tail/SavePositionServer.cpp. A file of the state directory is its name
-- and the position in it; a position is any type, with the one at the beginning of a file. Names of
-- files hold no zero byte, so what the code does with `data()` is not seen. Errors of the file
-- system, which the code only logs, are left out.
pub mod Restart
use iqlogger.Common.{Option, none, some, List, [], ◌∷◌, Bytes, ◌==◌, if◌then◌else◌}
use iqlogger.Common.Table.{bytes_key, lookup, assign, insert, erase}
use mathlib.Core.Option

-- The state directory, and the table in memory.
pub record Positions (P : Type 0) : Type 0 where
  pub directory : List (Bytes × P)
  pub saved : List (Bytes × P)

-- `boost::replace_all(result, "/", "-")`.
unfoldable pub dashes : Bytes → Bytes
dashes [] = []
dashes (c ∷ cs) = (if c == b'/' then b'-' else c) ∷ dashes cs

-- `getSavedPathByFileName`; `substr(1)` of an empty name throws: `none`.
unfoldable pub saved_path : Bytes → Option Bytes
unfolding dashes
saved_path [] = none
saved_path (c ∷ cs) = some (dashes cs)

module _ {P : Type 0} where
  unfoldable pub value_or : P → Option P → P
  value_or p none = p
  value_or p (some q) = q

  -- `getSavedPosition`, from the table in memory; `start` is the position 0.
  unfoldable pub get_saved : P → Bytes → Positions P → Option P
  unfolding value_or saved_path
  get_saved start filename s =
      Option.map (λ path. value_or start (lookup path s.saved)) (saved_path filename)

  -- `savePosition`: the file is written, or written again.
  unfoldable pub save : Bytes → P → Positions P → Option (Positions P)
  unfolding saved_path
  save filename p s =
      Option.map (λ path. record s { directory = assign path p s.directory }) (saved_path filename)

  -- `erasePosition`: the file is removed.
  unfoldable pub erase_position : Bytes → Positions P → Option (Positions P)
  unfolding saved_path
  erase_position filename s =
      Option.map (λ path. record s { directory = erase path s.directory }) (saved_path filename)

  -- The loop of `initImpl`: the position of each file goes into the table, and the file is removed.
  unfoldable pub init_files : List (Bytes × P) → Positions P → Positions P
  init_files [] s = s
  init_files ((path, p) ∷ files) s =
      init_files files
        (record { directory = erase path s.directory; saved = insert path p s.saved })

  -- The program starts: its memory is empty, and `initImpl` runs.
  unfoldable pub restart : Positions P → Positions P
  unfolding init_files
  restart s = init_files s.directory (record s { saved = [] })

  unfoldable pub save_all : List (Bytes × P) → Positions P → Option (Positions P)
  unfolding save
  save_all [] s = some s
  save_all ((filename, p) ∷ saves) s = Option.bind (save filename p s) (save_all saves)
