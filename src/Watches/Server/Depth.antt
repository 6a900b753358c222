-- ===== src/Watches/Server/Depth.antt =====
-- How deep `addWatch` calls itself.
use iqlogger.Common.{
  ℕ, zero, suc, ◌<◌, ◌≡◌, refl, sym, ap, subst, ◌∙◌, Bool, true, false, ◌||◌, ◌==◌, ==_iff, Option,
  none, some, List, [], ◌∷◌, ◌++◌, Bytes, inl, inr, Bool-cases, Option-cases, All, arith, codes,
}
use mathlib.Core.Option
use mathlib.Core.Option.{some-injective}
use iqlogger.Watches.Descriptors.{Watch, has_path, find_by_watch_descriptor, add_watch as map_add}
use iqlogger.Watches.Buffer.{Event}
use iqlogger.Watches.Server.{
  Entry, Files, Notifier, Server, make_watch_path, notifier_handler, emit, watch_notify,
  notify_found, notify, initial, visit, visit_all, visit_found, watch_directory, add_watch,
}

-- What an entry that is not a plain file leads to is less deep.
abbrev pub IsLower : Files → (Bytes → ℕ) → ℕ → Bytes → Type 0
IsLower files rank r path =
    (files.is_directory path ≡ true → rank path < r)
    × (files.is_directory path ≡ false
        → files.is_symlink path ≡ true
        → rank (files.read_symlink path) < r)

-- The directories and links below a path end: a number can be given to each path such that the
-- numbers decrease. A directory has one descriptor and is watched under one name only, and the path
-- of an entry is its directory, a slash, and its name.
pub record IsTree (files : Files) (rank : Bytes → ℕ) : Type 0 where
  pub one_name :
      (c d : Bytes) (wd : ℕ)
      → files.inotify_add_watch c ≡ some wd
      → files.inotify_add_watch d ≡ some wd
      → c ≡ d
  pub named :
      (d : Bytes) (entries : List Entry)
      → files.directory_iterator d ≡ some entries
      → All (λ (e : Entry). e.path ≡ d ++ (codes "/" ++ e.filename)) entries
  pub lower :
      (path : Bytes) (entries : List Entry)
      → files.directory_iterator (make_watch_path files path).0 ≡ some entries
      → All
          (λ (e : Entry).
            files.regex_match e.path (make_watch_path files path).1 ≡ true
            → IsLower files rank (rank path) e.path)
          entries

module _ {E : Type 0} (files : Files) where
  -- Every watch has the descriptor of its directory.
  abbrev pub Coherent : List (Watch (Notifier E)) → Type 0
  Coherent ws =
      All
        (λ (w : Watch (Notifier E)). files.inotify_add_watch w.directory ≡ some w.watch_descriptor)
        ws

  abbrev Ended : Option (Server E) → Type 0
  Ended none = ⊥
  Ended (some t) = Coherent t.watches

  Ended-bind :
      (o : Option (Server E)) (f : Server E → Option (Server E))
      → Ended o
      → ((t : Server E) → Coherent t.watches → Ended (f t))
      → Ended (Option.bind o f)
  unfolding Option.bind
  Ended-bind none f h k = elim h [ ]
  Ended-bind (some t) f h k = k t h

  Ended-emit :
      (o : Option (Server E)) (notifier : Notifier E) (event : Event)
      → Ended o
      → Ended (Option.map (emit notifier event) o)
  Ended-emit none notifier event h = elim h [ ]
  Ended-emit (some t) notifier event h = h

  Ended-branch :
      (b : Bool) (x y : Option (Server E))
      → (b ≡ true → Ended x)
      → (b ≡ false → Ended y)
      → Ended (elim b [ true ↦ x | false ↦ y ])
  Ended-branch true x y h k = h refl
  Ended-branch false x y h k = k refl

  Coherent-found :
      (ws : List (Watch (Notifier E))) (d : ℕ) (w : Watch (Notifier E))
      → Coherent ws
      → find_by_watch_descriptor d ws ≡ some w
      → files.inotify_add_watch w.directory ≡ some d
  unfolding find_by_watch_descriptor
  Coherent-found [] d w h e = cc
  Coherent-found (v ∷ ws) d w h e = elim (Bool-cases (v.watch_descriptor == d)) [
    | inl k ↦
        subst (λ (z : Watch (Notifier E)). files.inotify_add_watch z.directory ≡ some d)
          (some-injective v w (rw k at e)) (h.0 ∙ ap some ((==_iff v.watch_descriptor d).0 k))
    | inr k ↦ Coherent-found ws d w h.1 (rw k at e)
  ]

  Coherent-add :
      (v : Watch (Notifier E)) (ws : List (Watch (Notifier E)))
      → files.inotify_add_watch v.directory ≡ some v.watch_descriptor
      → Coherent ws
      → Coherent (map_add v ws)
  unfolding map_add
  Coherent-add v [] k h = (k, tt)
  Coherent-add v (w ∷ ws) k h =
      elim (Bool-cases
        (w.watch_descriptor == v.watch_descriptor || has_path v.directory v.pattern w)) [
          | inl e ↦ rw e h
          | inr e ↦ rw e (h.0, Coherent-add v ws k h.1)
        ]

  module _ (rank : Bytes → ℕ) (tree : IsTree files rank)
      (add : Bytes → Notifier E → Server E → Option (Server E)) (r : ℕ)
      (add-Ended : (path : Bytes) (notifier : Notifier E) (s : Server E)
        → rank path < r
        → Coherent s.watches
        → Ended (add path notifier s)) where
    watch_notify-Ended :
        (w : Watch (Notifier E)) (event : Event) (s : Server E)
        → Coherent s.watches
        → IsLower files rank r (w.directory ++ (codes "/" ++ event.filename))
        → Ended (watch_notify files add w event s)
    unfolding watch_notify
    watch_notify-Ended w event s h l =
        let filename = w.directory ++ (codes "/" ++ event.filename) in
        Ended-branch (files.regex_match filename w.pattern) _ (some s)
          (λ _.
            Ended-branch (files.is_directory filename) _ _
              (λ d. add-Ended filename w.notifier s (l.0 d) h)
              (λ d.
                Ended-branch (files.is_symlink filename) _ _
                  (λ k. Ended-emit _ w.notifier _ (
                    add-Ended (files.read_symlink filename) (notifier_handler filename w.notifier) s
                      (l.1 d k) h))
                  (λ _. h)))
          (λ _. h)

    -- An entry of the directory that has this descriptor.
    notify-Ended :
        (wd : ℕ) (directory : Bytes) (entry : Entry) (s : Server E)
        → Coherent s.watches
        → files.inotify_add_watch directory ≡ some wd
        → entry.path ≡ directory ++ (codes "/" ++ entry.filename)
        → IsLower files rank r entry.path
        → Ended (notify files add (initial wd entry.filename) s)
    unfolding notify notify_found
    notify-Ended wd directory entry s h e p l =
        elim (Option-cases (find_by_watch_descriptor wd s.watches)) [
          | inl k ↦ rw k h
          | inr (w, k) ↦
              let same =
                tree.one_name directory w.directory wd e (Coherent-found s.watches wd w h k) in
              rw k (
                watch_notify-Ended w (initial wd entry.filename) s h (
                  subst (IsLower files rank r)
                    (p ∙ ap (λ (d : Bytes). d ++ (codes "/" ++ entry.filename)) same) l))
        ]

    visit-Ended :
        (wd : ℕ) (directory pattern : Bytes) (notifier : Notifier E) (entry : Entry) (s : Server E)
        → Coherent s.watches
        → files.inotify_add_watch directory ≡ some wd
        → entry.path ≡ directory ++ (codes "/" ++ entry.filename)
        → (files.regex_match entry.path pattern ≡ true → IsLower files rank r entry.path)
        → Ended (visit files add wd pattern notifier entry s)
    unfolding visit
    visit-Ended wd directory pattern notifier entry s h e p l =
        Ended-branch (files.regex_match entry.path pattern) _ (some s)
          (λ m.
            Ended-branch (files.is_directory entry.path) _ _
              (λ d. add-Ended entry.path notifier s ((l m).0 d) h)
              (λ d.
                Ended-branch (files.is_symlink entry.path) _ _
                  (λ k.
                    Ended-bind _ (notify files add (initial wd entry.filename))
                      (add-Ended (files.read_symlink entry.path)
                        (notifier_handler entry.path notifier) s ((l m).1 d k) h)
                      (λ t c. notify-Ended wd directory entry t c e p (l m)))
                  (λ _. notify-Ended wd directory entry s h e p (l m))))
          (λ _. h)

    visit_all-Ended :
        (wd : ℕ) (directory pattern : Bytes) (notifier : Notifier E) (entries : List Entry)
        (s : Server E)
        → Coherent s.watches
        → files.inotify_add_watch directory ≡ some wd
        → All (λ (e : Entry). e.path ≡ directory ++ (codes "/" ++ e.filename)) entries
        → All
            (λ (e : Entry). files.regex_match e.path pattern ≡ true → IsLower files rank r e.path)
            entries
        → Ended (visit_all files add wd pattern notifier entries s)
    unfolding visit_all
    visit_all-Ended wd directory pattern notifier [] s h e p l = h
    visit_all-Ended wd directory pattern notifier (entry ∷ entries) s h e p l =
        Ended-bind _ (visit_all files add wd pattern notifier entries)
          (visit-Ended wd directory pattern notifier entry s h e p.0 l.0)
          (λ t c. visit_all-Ended wd directory pattern notifier entries t c e p.1 l.1)

    watch_directory-Ended :
        (path : Bytes) (notifier : Notifier E) (o : Option ℕ) (s : Server E)
        → Coherent s.watches
        → files.inotify_add_watch (make_watch_path files path).0 ≡ o
        → rank path ≡ r
        → Ended (watch_directory files add (make_watch_path files path) notifier o s)
    unfolding watch_directory visit_found
    watch_directory-Ended path notifier none s h e k = h
    watch_directory-Ended path notifier (some wd) s h e k =
        let (directory, pattern) = make_watch_path files path in
        elim (Option-cases (files.directory_iterator directory)) [
          | inl i ↦ rw i (Coherent-add _ s.watches e h)
          | inr (entries, i) ↦ rw i (
              visit_all-Ended wd directory pattern notifier entries _ (Coherent-add _ s.watches e h)
                e (tree.named directory entries i) (rw (sym k) (tree.lower path entries i)))
        ]

  add_watch-Ended :
      (rank : Bytes → ℕ)
      → IsTree files rank
      → (depth : ℕ) (path : Bytes) (notifier : Notifier E) (s : Server E) → rank path < depth
      → Coherent s.watches
      → Ended (add_watch files depth path notifier s)
  unfolding add_watch
  add_watch-Ended rank tree zero path notifier s l h = absurd (omega (arith, l))
  add_watch-Ended rank tree (suc depth) path notifier s l h =
      watch_directory-Ended rank tree (add_watch files depth) (rank path)
        (λ p n t k c. add_watch-Ended rank tree depth p n t (omega (arith, k, l)) c) path notifier _
        s h refl refl

  ended : (o : Option (Server E)) → Ended o → (t : Server E) × (o ≡ some t) × Coherent t.watches
  ended none h = elim h [ ]
  ended (some t) h = (t, refl, h)

  -- Adding a path returns, with one level of calls more than the path is deep, if the directories
  -- and links below it end, every watch has the descriptor of its directory, and no directory is
  -- watched under two names; afterwards every watch has the descriptor of its directory again.
  pub add_watch_ends :
      (rank : Bytes → ℕ)
      → IsTree files rank
      → (path : Bytes) (notifier : Notifier E) (s : Server E) → Coherent s.watches
      → (t : Server E) × (add_watch files (suc (rank path)) path notifier s ≡ some t)
        × Coherent t.watches
  add_watch_ends rank tree path notifier s h =
      ended _ (add_watch-Ended rank tree (suc (rank path)) path notifier s (omega arith) h)
