-- ===== src/Tail/Monitor/Total.antt =====
-- A reader always comes to an end, and keeps its name.
use iqlogger.Common.{
  ℕ, zero, suc, ◌+◌, ◌-◌, ◌<◌, ◌≡◌, refl, ◌∙◌, Bool, true, false, not, ◌&&◌, Option, none, some,
  List, Bytes, ltb, ◌==◌, if◌then◌else◌, length, min, arith, inl, inr, Bool-cases,
}
use mathlib.Core.Option
use iqlogger.Tail.Reader.{
  Reader, Stream, Delimiter, with_split, with_lines, process_buffer, save_position, take_block,
  read_buffer_size, read_loop, read_added, process_size, is_symlink, process,
}
use iqlogger.Tail.Lines.{split_lines}

-- The result of a step from a reader.
abbrev pub Gives : Reader → Option Reader → Type 0
Gives r o = (q : Reader) × (o ≡ some q) × (q.filename ≡ r.filename)

with_lines-filename :
    (o : Option (List Bytes)) (r : Reader) → (with_lines o r).filename ≡ r.filename
unfolding with_lines
with_lines-filename none r = refl
with_lines-filename (some ms) r = refl

take_block-filename :
    (delimiter : Delimiter) (block : Bytes) (r : Reader)
    → (take_block delimiter block r).filename ≡ r.filename
unfolding take_block process_buffer with_split
take_block-filename none block r = with_lines-filename (split_lines block) r
take_block-filename (some matches) block r = refl

module _ (delimiter : Delimiter) (stream : Stream) where
  read_loop-Gives :
      (fuel start added total : ℕ) (r : Reader)
      → added - total < fuel
      → Gives r (read_loop delimiter stream fuel start added total r)
  unfolding read_loop
  read_loop-Gives zero start added total r h = absurd (omega arith)
  read_loop-Gives (suc fuel) start added total r h =
      let block : Bytes = stream.read (start + total) (min read_buffer_size (added - total)) in
      elim (Bool-cases (ltb total added)) [
        | inr all ↦ rw all (r, refl, refl)
        | inl more ↦ elim (Bool-cases (length block == 0)) [
          | inl nothing ↦ rw (more, nothing) (r, refl, refl)
          | inr bytes ↦
              let (q, e, n) =
                read_loop-Gives fuel start added (total + length block)
                  (take_block delimiter block r) (ground arith) in
              rw (more, bytes) (q, e, n ∙ take_block-filename delimiter block r)
        ]
      ]

  saved-Gives : (r : Reader) (o : Option Reader) → Gives r o → Gives r (Option.map save_position o)
  unfolding save_position
  saved-Gives r o (q, e, n) = (save_position q, rw e refl, n)

  read_added-Gives : (filesize : ℕ) (r : Reader) → Gives r (read_added delimiter stream filesize r)
  unfolding read_added save_position
  read_added-Gives filesize r =
      let added : ℕ = filesize - r.position in
      elim (Bool-cases (ltb 0 added && (not r.first_read && r.follow_only))) [
        | inl skip ↦ rw skip (record r { position = filesize; first_read = true }, refl, refl)
        | inr follow ↦ elim (Bool-cases (ltb 0 added)) [
          | inl some_added ↦
              rw (follow, some_added)
                (saved-Gives r _
                  (read_loop-Gives (suc added) (filesize - added) added 0 r (omega arith)))
          | inr nothing ↦ rw (follow, nothing) (save_position r, refl, refl)
        ]
      ]

  process_size-Gives : (o : Option ℕ) (r : Reader) → Gives r (process_size delimiter stream o r)
  unfolding process_size
  process_size-Gives none r = (record r { position = 0 }, refl, refl)
  process_size-Gives (some filesize) r = elim (Bool-cases (ltb filesize r.position)) [
    | inl shorter ↦ rw shorter (read_added-Gives filesize (record r { position = 0 }))
    | inr longer ↦ rw longer (read_added-Gives filesize r)
  ]

  if-Gives :
      (r : Reader) (b : Bool) (o o' : Option Reader)
      → Gives r o
      → Gives r o'
      → Gives r (if b then o else o')
  if-Gives r true o o' g g' = g
  if-Gives r false o o' g g' = g'

  pub process-Gives : (r : Reader) → Gives r (process delimiter stream r)
  unfolding process
  process-Gives r =
      if-Gives r (is_symlink r.symlink_path) _ _ (r, refl, refl)
        (if-Gives r (not r.is_open) _ _ (r, refl, refl) (process_size-Gives stream.size r))
