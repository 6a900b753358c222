-- ===== src/Tail/Growth.antt =====
-- A file that grows, with a pattern at which messages start.
use iqlogger.Common.{
  ℕ, zero, suc, ◌+◌, ◌-◌, ◌≤◌, ◌<◌, ◌≡◌, refl, sym, ap, subst, ◌∙◌, true, false, not, ◌&&◌, none,
  some, List, [], ◌∷◌, ◌++◌, append_assoc, append-nil, Bytes, ltb, leb, ◌==◌, length, take, drop,
  take-append-drop, length-take, length-drop, length-append, min, arith, inl, inr, Bool-cases,
}
use iqlogger.Common.Int.{ℤ, pos, sub_ℕ}
use iqlogger.Tail.Lines.{drop_all}
use iqlogger.Tail.Matches.{
  split_matches, Rising, concat, concat-append, drop-drop, split_matches-concat,
}
use iqlogger.Tail.Reader.{
  Reader, Stream, read_buffer_size, process_buffer, save_position, take_block, read_loop,
  read_added, process_size, is_symlink, process,
}

-- What has been handed on, and what is pending.
abbrev pub content : Reader → Bytes
content r = concat r.messages ++ r.buffer

-- What reading leaves alone.
pub record SameFile (r q : Reader) : Type 0 where
  pub filename : q.filename ≡ r.filename
  pub save_state : q.save_state ≡ r.save_state
  pub saved : q.saved ≡ r.saved

-- The stream over a file that does not change during the call.
abbrev pub stream_of : Bytes → Stream
stream_of file = record { size = some (length file); read = λ o k. take k (drop o file) }

-- The reader `q` is at the end of the file, and `r` was before.
pub record IsDone (file : Bytes) (r q : Reader) : Type 0 where
  pub at_end : q.position ≡ length file
  pub all_read : content q ≡ file
  pub saved : q.saved ≡ r.saved ++ ((r.filename, pos (length (concat q.messages))) ∷ [])

module _ (matches : Bytes → List ℕ) (rising : (b : Bytes) → Rising 0 (length b) (matches b))
    (file : Bytes) where
  take_block-content :
      (block : Bytes) (r : Reader)
      → content (take_block (some matches) block r) ≡ content r ++ block
  unfolding take_block process_buffer
  take_block-content block r =
      rw (concat-append r.messages (split_matches (matches block) r.buffer block).messages) (
        append_assoc (concat r.messages) _ _
        ∙ ap (◌++◌ (concat r.messages))
            (split_matches-concat (matches block) r.buffer block (rising block))
        ∙ sym (append_assoc (concat r.messages) r.buffer block))

  pub record Reads (r q : Reader) (rest : Bytes) : Type 0 where
    pub same : SameFile r q
    pub at_end : q.position ≡ r.position + length rest
    pub all_read : content q ≡ content r ++ rest

  -- The rest of a file behind a block.
  drop-block : (at need : ℕ) → take need (drop at file) ++ drop (at + need) file ≡ drop at file
  drop-block at need =
      ap (◌++◌ (take need (drop at file))) (
        sym (drop-drop at (at + need) file (omega arith))
        ∙ ap (λ (t : ℕ). drop t (drop at file)) {y = need} (omega arith))
      ∙ take-append-drop need (drop at file)

  Reads-block :
      (block rest : Bytes) (r q : Reader)
      → Reads (take_block (some matches) block r) q rest
      → Reads r q (block ++ rest)
  Reads-block block rest r q s = record {
    same = record {
      filename = s.same.filename ∙ unfold take_block process_buffer in refl;
      save_state = s.same.save_state ∙ unfold take_block process_buffer in refl;
      saved = s.same.saved ∙ unfold take_block process_buffer in refl;
    };
    at_end =
        unfold take_block process_buffer in (omega (arith, s.at_end, length-append block rest));
    all_read =
        s.all_read
        ∙ ap (λ (t : Bytes). t ++ rest) (take_block-content block r)
        ∙ append_assoc (content r) block rest;
  }

  read_loop-Reads :
      (fuel start added total : ℕ) (r : Reader)
      → added - total < fuel
      → start + added ≡ length file
      → total ≤ added
      → (q : Reader) × (read_loop (some matches) (stream_of file) fuel start added total r ≡ some q)
        × Reads r q (drop (start + total) file)
  unfolding read_loop
  read_loop-Reads zero start added total r h e l = elim h [ ]
  read_loop-Reads (suc fuel) start added total r h e l = elim (Bool-cases (ltb total added)) [
    | inr end ↦ (
      r,
      rw end refl,
      rw (drop_all (start + total) file (ground arith)) (record {
        same = record { filename = refl; save_state = refl; saved = refl };
        at_end = omega arith;
        all_read = sym (append-nil (content r));
      }),
    )
    | inl more ↦
        let at = start + total in
        let need = min read_buffer_size (added - total) in
        let block = take need (drop at file) in
        let below : total < added = ground arith in
        let full : length block ≡ need =
          omega (arith, length-take need (drop at file), length-drop at file) in
        let some_read : (length block == 0) ≡ false = ground arith in
        let (q, run, reads) =
          read_loop-Reads fuel start added (total + length block)
            (take_block (some matches) block r) (omega arith) e (omega arith) in
        (
          q,
          rw (more, some_read) run,
          subst (Reads r q)
              (ap (λ (t : ℕ). block ++ drop t file) {y = at + need} (omega (arith, full))
                ∙ drop-block at need)
              (Reads-block block (drop (start + (total + length block)) file) r q reads),
        )
  ]

  -- What the reader of a file knows when it has read up to its position from the beginning.
  record IsUpTo (r : Reader) : Type 0 where
    in_file : r.position ≤ length file
    has_read : content r ≡ take r.position file

  -- Then the position that is saved is the number of bytes that were handed on.
  save_position-handed :
      (r : Reader)
      → IsUpTo r
      → r.save_state ≡ true
      → (save_position r).saved ≡ r.saved ++ ((r.filename, pos (length (concat r.messages))) ∷ [])
  unfolding save_position sub_ℕ
  save_position-handed r u s =
      let size : length (content r) ≡ length (take r.position file) = ap length u.has_read in
      let parts : length (concat r.messages) + length r.buffer ≡ r.position = omega (
        arith,
        size,
        u.in_file,
        length-append (concat r.messages) r.buffer,
        length-take r.position file,
      ) in
      let fits : leb (length r.buffer) r.position ≡ true = ground arith in
      let left : r.position - length r.buffer ≡ length (concat r.messages) = omega arith in
      rw s (ap (λ (z : ℤ). r.saved ++ ((r.filename, z) ∷ [])) (rw (fits, left) refl))

  process-size :
      (r : Reader)
      → r.symlink_path ≡ none
      → r.is_open ≡ true
      → process (some matches) (stream_of file) r
        ≡ process_size (some matches) (stream_of file) (some (length file)) r
  unfolding process is_symlink
  process-size r link opened =
      let plain : is_symlink r.symlink_path ≡ false = rw link refl in
      let closed : not r.is_open ≡ false = ground arith in rw (plain, closed) refl

  take_all : (b : Bytes) → take (length b) b ≡ b
  take_all [] = refl
  take_all (x ∷ xs) = ap (◌∷◌ x) (take_all xs)

  save_position-IsDone :
      (r q : Reader)
      → r.save_state ≡ true
      → SameFile r q
      → q.position ≡ length file
      → content q ≡ file
      → IsDone file r (save_position q)
  save_position-IsDone r q s same e c = record {
    at_end = unfold save_position in e;
    all_read = unfold save_position in c;
    saved =
        save_position-handed q
          (record { in_file = omega (arith, e); has_read = c ∙ sym (rw e (take_all file)) })
          (same.save_state ∙ s)
        ∙ unfold save_position in rw (same.saved, same.filename) refl;
  }

  -- With a pattern that starts a message (whose matches in a block are positions in it that rise): a
  -- file that has grown, or has not changed, since it was read up to the position, is read to
  -- its end: the call ends, what was handed on and what is pending are together the whole file,
  -- no byte lost or repeated, and the position that is saved is the number of bytes handed on,
  -- so that a reader that starts there goes on at the first byte that was not. (The file is open
  -- and no symbolic link, its state is saved, and it is not skipped in the follow-only mode. Without a
  -- pattern, where messages are lines, this does not hold.)
  pub process-content :
      (r : Reader)
      → r.symlink_path ≡ none
      → r.is_open ≡ true
      → r.save_state ≡ true
      → (not r.first_read && r.follow_only) ≡ false
      → r.position ≤ length file
      → content r ≡ take r.position file
      → (q : Reader) × (process (some matches) (stream_of file) r ≡ some q) × IsDone file r q
  unfolding process_size read_added
  process-content r link opened save follow inside known =
      let kept : ltb (length file) r.position ≡ false = ground arith in
      let added = length file - r.position in
      elim (Bool-cases (ltb 0 added)) [
        | inr nothing ↦
            let at_end : r.position ≡ length file = ground arith in
            (
              save_position r,
              process-size r link opened ∙ rw (kept, nothing) refl,
              save_position-IsDone r r save
                  (record { filename = refl; save_state = refl; saved = refl }) at_end
                  (known ∙ rw at_end (take_all file)),
            )
        | inl grown ↦
            let (q, run, reads) =
              read_loop-Reads (suc added) (length file - added) added 0 r (omega arith)
                (omega arith) (omega arith) in
            let at : length file - added + 0 ≡ r.position = omega arith in
            (
              save_position q,
              process-size r link opened ∙ rw (kept, grown, follow, run) refl,
              save_position-IsDone r q save reads.same
                  (reads.at_end ∙ rw at (omega (arith, length-drop r.position file)))
                  (reads.all_read ∙ rw (at, known) (take-append-drop r.position file)),
            )
      ]
