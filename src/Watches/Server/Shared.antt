-- ===== src/Watches/Server/Shared.antt =====
-- A second path in a directory that is watched already.
use iqlogger.Common.{ℕ, ◌≡◌, Option, refl, subst, false, some, ◌++◌, Bytes, codes}
use iqlogger.Watches.Descriptors.{Watch, find_by_watch_descriptor}
use iqlogger.Watches.Buffer.{Event}
use iqlogger.Watches.Server.{
  Files, Notifier, Server, make_watch_path, watch_notify, notify_found, notify, add_watch,
}
use iqlogger.Watches.Server.Extends.{Extended, add_watch-Extended}

mismatch :
    {E : Type 0} (files : Files) (add : Bytes → Notifier E → Server E → Option (Server E))
    (t : Server E) (w : Watch (Notifier E)) (event : Event)
    → files.regex_match (w.directory ++ (codes "/" ++ event.filename)) w.pattern ≡ false
    → watch_notify files add w event t ≡ some t
unfolding watch_notify
mismatch files add t w event m = rw (m, watch_notify) refl

-- The kernel gives a directory that is watched already the descriptor that it has. When a path in
-- such a directory is added, the watch that was there keeps the descriptor: an event of the
-- directory after that is dropped if the pattern of the earlier watch does not match it, whatever
-- path was added.
pub add_watch_shared :
    {E : Type 0} (files : Files) (depth : ℕ) (path : Bytes) (notifier : Notifier E) (s t : Server E)
    (w : Watch (Notifier E)) (event : Event)
    → files.inotify_add_watch (make_watch_path files path).0 ≡ some event.watch_descriptor
    → find_by_watch_descriptor event.watch_descriptor s.watches ≡ some w
    → add_watch files depth path notifier s ≡ some t
    → files.regex_match (w.directory ++ (codes "/" ++ event.filename)) w.pattern ≡ false
    → notify files (add_watch files depth) event t ≡ some t
unfolding notify notify_found
add_watch_shared files depth path notifier s t w event k h e m =
    let extends = subst (Extended s) e (add_watch-Extended files depth path notifier s) in
    rw (extends.kept event.watch_descriptor w h)
      (mismatch files (add_watch files depth) t w event m)
