-- ===== src/Tail/Monitor/Rotation.antt =====
-- A file that gets another name.
use iqlogger.Common.{
  ◌≡◌, ◌≢◌, refl, sym, ap, ◌∙◌, Bool, Option, none, some, List, [], ◌∷◌, Bytes, bytes_eq_ne,
}
use mathlib.Core.Option
use iqlogger.Common.Table.{
  bytes_key, lookup, assign, insert, erase, lookup-assign_self, lookup-assign_ne, lookup-erase_self,
  lookup-erase_ne, lookup-insert_new,
}
use iqlogger.Tail.Reader.{Reader, Delimiter, process}
use iqlogger.Tail.Monitor.{
  Monitor, Files, create, move, insert_record, process_record, modify_file, move_record, move_found,
  move_file, on_event, run_events,
}
use iqlogger.Tail.Monitor.Total.{process-Gives}

abbrev moved : Bytes → Bytes → Reader → Monitor → List (Bytes × Reader)
moved old new r m = erase old (insert new (record r { filename = new }) m.table)

move_found-moved :
    (old new : Bytes) (r : Reader) (files : Files) (m : Monitor)
    → files.current_filename r ≡ some new
    → new ≢ old
    → move_found files old (some r) m ≡ some (record m { table = moved old new r m })
unfolding move_found move_record
move_found-moved old new r files m renamed other = rw (renamed, bytes_eq_ne new old other) refl

module _ (delimiter : Delimiter) (follow_only save_state : Bool) where
  -- A reader that is there reads on.
  modify_file-found :
      (files : Files) (filename : Bytes) (m : Monitor) (r p : Reader)
      → lookup filename m.table ≡ some r
      → process delimiter (files.stream r) r ≡ some p
      → modify_file delimiter follow_only save_state files filename m
        ≡ some (record m { table = assign filename p m.table })
  unfolding modify_file process_record insert_record Option.bind
  modify_file-found files filename m r p found run = rw (found, found, run) refl

  -- A file is renamed: inotify tells of the old name, and then of the new one. If no reader has the
  -- new name, then the reader of the file goes on under it, with its position and its pending bytes,
  -- so nothing is read again and nothing is left out, and the old name is free.
  pub run_events_rotated :
      (m : Monitor) (before after : Files) (old new : Bytes) (r : Reader)
      → lookup old m.table ≡ some r
      → before.current_filename r ≡ some new
      → new ≢ old
      → lookup new m.table ≡ none
      → (t : Monitor) × (run_events delimiter follow_only save_state
            ((before, record { event_type = move; filename = old })
              ∷ (after, record { event_type = create; filename = new })
              ∷ [])
            m
          ≡ some t)
        × (lookup new t.table
            ≡ process delimiter
                (after.stream (record r { filename = new }))
                (record r { filename = new }))
        × (lookup old t.table ≡ none)
  unfolding run_events on_event move_file Option.bind
  run_events_rotated m before after old new r found renamed other free =
      let q : Reader = record r { filename = new } in
      let (p, run, kept) = process-Gives delimiter (after.stream q) q in
      let back : old ≢ new = λ e. other (sym e) in
      let there : lookup new (moved old new r m) ≡ some q =
        lookup-erase_ne old new _ back ∙ lookup-insert_new new q m.table free in
      let away : lookup old (moved old new r m) ≡ none = lookup-erase_self old _ in
      let table : List (Bytes × Reader) = moved old new r m in
      (
        record m { table = assign new p table },
        rw (found, move_found-moved old new r before m renamed other)
            (ap (λ (o : Option Monitor). Option.bind o (λ x. some x))
              (modify_file-found after new (record m { table = moved old new r m }) q p there run)),
        lookup-assign_self new p table ∙ sym run,
        lookup-assign_ne new old p table other ∙ away,
      )
