-- ===== src/Tail/Truncation.antt =====
-- What `process` and `flush` do with bytes that are pending when no more come.
use iqlogger.Common.{
  ℕ, zero, suc, ◌-◌, ◌<◌, ◌≡◌, ◌≢◌, refl, sym, ap, ◌∙◌, true, false, not, none, some, [], ◌∷◌, ◌++◌,
  append-nil, Bytes, ltb, length, arith,
}
use iqlogger.Common.Int.{negsuc, sub_ℕ}
use iqlogger.Tail.Matches.{concat, concat-append}
use iqlogger.Tail.Growth.{content}
use iqlogger.Tail.Reader.{
  Reader, Stream, Delimiter, save_position, read_added, process_size, is_symlink, process,
  flush_buffer, flush,
}

size-pos : (b : Bytes) → b ≢ [] → 0 < length b
size-pos [] h = absurd (h refl)
size-pos (x ∷ xs) h = omega arith

negative : (n : ℕ) → 0 < n → sub_ℕ 0 n ≡ negsuc (n - 1)
unfolding sub_ℕ
negative zero h = absurd (omega arith)
negative (suc n) h = ground arith

-- A file that is truncated to nothing while a part of its last message is pending: the position
-- starts again at 0, but the pending bytes stay, and the position that is saved is negative, by as many bytes as are pending.
pub process_truncated :
    (delimiter : Delimiter) (stream : Stream) (r : Reader)
    → r.symlink_path ≡ none
    → r.is_open ≡ true
    → r.save_state ≡ true
    → r.buffer ≢ []
    → 0 < r.position
    → stream.size ≡ some 0
    → (q : Reader) × (process delimiter stream r ≡ some q)
      × (q.position ≡ 0)
      × (q.buffer ≡ r.buffer)
      × (q.messages ≡ r.messages)
      × (q.saved ≡ r.saved ++ ((r.filename, negsuc (length r.buffer - 1)) ∷ []))
unfolding process process_size read_added is_symlink save_position
process_truncated delimiter stream r link opened save pending p size =
    let plain : is_symlink r.symlink_path ≡ false = rw link refl in
    let closed : not r.is_open ≡ false = ground arith in
    let cut : ltb 0 r.position ≡ true = ground arith in
    (
      save_position (record r { position = 0 }),
      rw (plain, closed, size, process_size, cut) refl,
      refl,
      refl,
      refl,
      rw (save, negative (length r.buffer) (size-pos r.buffer pending)) refl,
    )

flush_buffer-content :
    (b : Bytes) (r : Reader)
    → r.buffer ≡ b
    → (content (flush_buffer b r) ≡ content r) × ((flush_buffer b r).buffer ≡ [])
unfolding flush_buffer save_position
flush_buffer-content [] r e = (refl, e)
flush_buffer-content (c ∷ cs) r e = (
  append-nil _
      ∙ concat-append r.messages ((c ∷ cs) ∷ [])
      ∙ ap (◌++◌ (concat r.messages)) (append-nil (c ∷ cs) ∙ sym e),
  refl,
)

-- The timer hands on what is pending as one message: nothing is pending afterwards, and no byte
-- is lost or added.
pub flush-content : (r : Reader) → (content (flush r) ≡ content r) × ((flush r).buffer ≡ [])
unfolding flush
flush-content r = flush_buffer-content r.buffer r refl
