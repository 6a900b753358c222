-- ===== src/Watches/Server/Extends.antt =====
-- What adding watches and notifying events leaves as it was.
use iqlogger.Common.{
  ℕ, zero, suc, ◌≡◌, refl, sym, ap, ◌∙◌, Bool, true, false, Option, none, some, List, [], ◌∷◌, ◌++◌,
  append-nil, append_assoc, Bytes, inl, inr, Option-cases, codes,
}
use mathlib.Core.Option
use iqlogger.Watches.Descriptors.{Watch, find_by_watch_descriptor, add_watch as map_add}
use iqlogger.Watches.Descriptors.Unique.{IsUnique, add_watch-IsUnique, add_watch-keeps}
use iqlogger.Watches.Buffer.{Event}
use iqlogger.Watches.Server.{
  Entry, Files, Notifier, Server, make_watch_path, notifier_handler, emit, watch_notify,
  notify_found, notify, initial, visit, visit_all, visit_found, watch_directory, add_watch,
  notify_all,
}

module _ {E : Type 0} where
  -- A server after some calls: the watches that were found by their descriptors still are, no two
  -- share a descriptor or a path if none did, and notifications are only added.
  pub record Extends (s t : Server E) : Type 0 where
    pub kept :
        (d : ℕ) (w : Watch (Notifier E))
        → find_by_watch_descriptor d s.watches ≡ some w
        → find_by_watch_descriptor d t.watches ≡ some w
    pub unique : IsUnique s.watches → IsUnique t.watches
    pub told : (ns : List E) × (t.notified ≡ s.notified ++ ns)

  abbrev pub Extended : Server E → Option (Server E) → Type 0
  Extended s none = Unit
  Extended s (some t) = Extends s t

  Extends-refl : (s : Server E) → Extends s s
  Extends-refl s = record {
    kept = λ d w h. h;
    unique = λ u. u;
    told = ([], sym (append-nil s.notified));
  }

  Extends-trans : (s t u : Server E) → Extends s t → Extends t u → Extends s u
  Extends-trans s t u a b = record {
    kept = λ d w h. b.kept d w (a.kept d w h);
    unique = λ h. b.unique (a.unique h);
    told = (
      a.told.0 ++ b.told.0,
      b.told.1
          ∙ ap (λ (ns : List E). ns ++ b.told.0) a.told.1
          ∙ append_assoc s.notified a.told.0 b.told.0,
    );
  }

  Extends-emit :
      (notifier : Notifier E) (event : Event) (s : Server E) → Extends s (emit notifier event s)
  Extends-emit notifier event s = record {
    kept = λ d w h. h;
    unique = λ u. u;
    told = (notifier event ∷ [], refl);
  }

  Extends-map_add :
      (v : Watch (Notifier E)) (s : Server E)
      → Extends s (record s { watches = map_add v s.watches })
  Extends-map_add v s = record {
    kept = λ d w h. add_watch-keeps v w s.watches d h;
    unique = add_watch-IsUnique v s.watches;
    told = ([], sym (append-nil s.notified));
  }

  Extended-after :
      (s t : Server E) (o : Option (Server E)) → Extends s t → Extended t o → Extended s o
  Extended-after s t none a e = tt
  Extended-after s t (some u) a e = Extends-trans s t u a e

  Extended-bind :
      (s : Server E) (o : Option (Server E)) (f : Server E → Option (Server E))
      → Extended s o
      → ((t : Server E) → Extended t (f t))
      → Extended s (Option.bind o f)
  unfolding Option.bind
  Extended-bind s none f h k = tt
  Extended-bind s (some t) f h k = Extended-after s t (f t) h (k t)

  Extended-map :
      (s : Server E) (o : Option (Server E)) (f : Server E → Server E)
      → Extended s o
      → ((t : Server E) → Extends t (f t))
      → Extended s (Option.map f o)
  Extended-map s none f h k = tt
  Extended-map s (some t) f h k = Extends-trans s t (f t) h (k t)

  Extended-branch :
      (s : Server E) (b : Bool) (x y : Option (Server E))
      → Extended s x
      → Extended s y
      → Extended s (elim b [ true ↦ x | false ↦ y ])
  Extended-branch s true x y h k = h
  Extended-branch s false x y h k = k

  module _ (files : Files) where
    module _ (add : Bytes → Notifier E → Server E → Option (Server E))
        (add-Extended : (path : Bytes) (notifier : Notifier E) (s : Server E)
          → Extended s (add path notifier s)) where
      watch_notify-Extended :
          (w : Watch (Notifier E)) (event : Event) (s : Server E)
          → Extended s (watch_notify files add w event s)
      unfolding watch_notify
      watch_notify-Extended w event s =
          let filename = w.directory ++ (codes "/" ++ event.filename) in
          let told = record event { filename = filename; symlink_filename = none } in
          Extended-branch s (files.regex_match filename w.pattern) _ (some s)
            (Extended-branch s (files.is_directory filename) _ _
              (add-Extended filename w.notifier s)
              (Extended-branch s (files.is_symlink filename) _ _
                (Extended-map s _ (emit w.notifier told)
                  (add-Extended (files.read_symlink filename) (notifier_handler filename w.notifier)
                    s)
                  (Extends-emit w.notifier told))
                (Extends-emit w.notifier told s)))
            (Extends-refl s)

      notify-Extended : (event : Event) (s : Server E) → Extended s (notify files add event s)
      unfolding notify notify_found
      notify-Extended event s =
          elim (Option-cases (find_by_watch_descriptor event.watch_descriptor s.watches)) [
            | inl e ↦ rw e (Extends-refl s)
            | inr (w, e) ↦ rw e (watch_notify-Extended w event s)
          ]

      visit-Extended :
          (wd : ℕ) (pattern : Bytes) (notifier : Notifier E) (entry : Entry) (s : Server E)
          → Extended s (visit files add wd pattern notifier entry s)
      unfolding visit
      visit-Extended wd pattern notifier entry s =
          Extended-branch s (files.regex_match entry.path pattern) _ (some s)
            (Extended-branch s (files.is_directory entry.path) _ _
              (add-Extended entry.path notifier s)
              (Extended-branch s (files.is_symlink entry.path) _ _
                (Extended-bind s _ (notify files add (initial wd entry.filename))
                  (add-Extended (files.read_symlink entry.path)
                    (notifier_handler entry.path notifier) s)
                  (notify-Extended (initial wd entry.filename)))
                (notify-Extended (initial wd entry.filename) s)))
            (Extends-refl s)

      visit_all-Extended :
          (wd : ℕ) (pattern : Bytes) (notifier : Notifier E) (entries : List Entry) (s : Server E)
          → Extended s (visit_all files add wd pattern notifier entries s)
      unfolding visit_all
      visit_all-Extended wd pattern notifier [] s = Extends-refl s
      visit_all-Extended wd pattern notifier (entry ∷ entries) s =
          Extended-bind s _ (visit_all files add wd pattern notifier entries)
            (visit-Extended wd pattern notifier entry s)
            (visit_all-Extended wd pattern notifier entries)

      visit_found-Extended :
          (wd : ℕ) (pattern : Bytes) (notifier : Notifier E) (o : Option (List Entry))
          (s : Server E)
          → Extended s (visit_found files add wd pattern notifier o s)
      unfolding visit_found
      visit_found-Extended wd pattern notifier none s = Extends-refl s
      visit_found-Extended wd pattern notifier (some entries) s =
          visit_all-Extended wd pattern notifier entries s

      watch_directory-Extended :
          (path : Bytes × Bytes) (notifier : Notifier E) (o : Option ℕ) (s : Server E)
          → Extended s (watch_directory files add path notifier o s)
      unfolding watch_directory
      watch_directory-Extended path notifier none s = Extends-refl s
      watch_directory-Extended (directory, pattern) notifier (some wd) s =
          let v : Watch (Notifier E) = record {
            watch_descriptor = wd;
            directory = directory;
            pattern = pattern;
            notifier = notifier;
          } in
          Extended-after s (record s { watches = map_add v s.watches }) _ (Extends-map_add v s)
            (visit_found-Extended wd pattern notifier (files.directory_iterator directory) _)

    -- Whatever the files are and whatever is watched, if the call returns: every watch that was
    -- found by its descriptor still is, no two watches share a descriptor or a path if none did
    -- before, and notifications are only added to those that were sent.
    pub add_watch-Extended :
        (depth : ℕ) (path : Bytes) (notifier : Notifier E) (s : Server E)
        → Extended s (add_watch files depth path notifier s)
    unfolding add_watch
    add_watch-Extended zero path notifier s = tt
    add_watch-Extended (suc depth) path notifier s =
        watch_directory-Extended (add_watch files depth) (add_watch-Extended depth)
          (make_watch_path files path) notifier _ s

    pub notify_all-Extended :
        (depth : ℕ) (events : List Event) (s : Server E)
        → Extended s (notify_all files depth events s)
    unfolding notify_all
    notify_all-Extended depth [] s = Extends-refl s
    notify_all-Extended depth (event ∷ events) s =
        Extended-bind s _ (notify_all files depth events)
          (notify-Extended (add_watch files depth) (add_watch-Extended depth) event s)
          (notify_all-Extended depth events)
