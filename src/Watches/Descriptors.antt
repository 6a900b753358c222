-- ===== src/Watches/Descriptors.antt =====
-- `Watch` and `WatchDescriptorsMap` of src/inputs/tail. The container of Boost has two unique
-- indexes, by descriptor and by path: it is the list of its watches here. `N` is the type of the
-- notifiers.
pub mod Unique
pub mod Refinement
use iqlogger.Common.{
  ℕ, Bool, true, false, ◌&&◌, ◌||◌, Option, none, some, List, [], ◌∷◌, Bytes, bytes_eq, ◌==◌,
  if◌then◌else◌,
}

pub record Watch (N : Type 0) : Type 0 where
  pub watch_descriptor : ℕ
  pub directory : Bytes
  pub pattern : Bytes
  pub notifier : N

module _ {N : Type 0} where
  abbrev pub has_path : Bytes → Bytes → Watch N → Bool
  has_path directory pattern w = bytes_eq w.directory directory && bytes_eq w.pattern pattern

  unfoldable pub find_by_watch_descriptor : ℕ → List (Watch N) → Option (Watch N)
  find_by_watch_descriptor wd [] = none
  find_by_watch_descriptor wd (w ∷ ws) =
      if w.watch_descriptor == wd then some w else find_by_watch_descriptor wd ws

  unfoldable pub find_by_watch_path : Bytes → Bytes → List (Watch N) → Option (Watch N)
  find_by_watch_path directory pattern [] = none
  find_by_watch_path directory pattern (w ∷ ws) =
      if has_path directory pattern w then some w else find_by_watch_path directory pattern ws

  -- `m_map.insert`: an element that has the descriptor or the path of another is not added.
  unfoldable pub add_watch : Watch N → List (Watch N) → List (Watch N)
  add_watch v [] = v ∷ []
  add_watch v (w ∷ ws) =
      if w.watch_descriptor == v.watch_descriptor || has_path v.directory v.pattern w
      then w ∷ ws
      else w ∷ add_watch v ws

  -- `m_map.erase` of what has the descriptor, if there is such a watch.
  unfoldable pub remove_watch : Watch N → List (Watch N) → List (Watch N)
  remove_watch v [] = []
  remove_watch v (w ∷ ws) =
      if w.watch_descriptor == v.watch_descriptor then ws else w ∷ remove_watch v ws
