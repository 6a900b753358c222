-- ===== src/Tcp/Frames.antt =====
-- What a connection makes of the bytes that it receives: the records between the zero bytes,
-- however the network cuts them into blocks.
use iqlogger.Common.{
  IsText, joined, ℕ, zero, suc, ◌+◌, ◌-◌, ◌<◌, ◌≡◌, ◌≢◌, refl, sym, ap, ◌∙◌, true, false, Option,
  some, List, [], ◌∷◌, ◌++◌, append-nil, append_assoc, Bytes, ltb, ◌==◌, if◌then◌else◌, length,
  take, drop, All-append, arith, length-append, take-append_length, inl, inr, Bool-cases,
}
use native.Mathlib.Decide.{ℕ_discrete}
use iqlogger.Tcp.{
  Connection, ReadsUntil, process, take_record, handle_read, on_read, do_read, receive, receive_all,
  accepted,
}

-- The records that end with a zero byte in a text, `cur` standing in front of it, and what is left.
abbrev pub records : Bytes → Bytes → List Bytes
records cur [] = []
records cur (c ∷ cs) = if c == 0 then cur ∷ records [] cs else records (cur ++ (c ∷ [])) cs

abbrev pub leftover : Bytes → Bytes → Bytes
leftover cur [] = cur
leftover cur (c ∷ cs) = if c == 0 then leftover [] cs else leftover (cur ++ (c ∷ [])) cs

pub records-append :
    (cur a b : Bytes) → records cur (a ++ b) ≡ records cur a ++ records (leftover cur a) b
records-append cur [] b = refl
records-append cur (c ∷ a) b = elim (Bool-cases (c == 0)) [
  | inl zero_byte ↦ rw zero_byte (ap (◌∷◌ cur) (records-append [] a b))
  | inr text ↦ rw text (records-append (cur ++ (c ∷ [])) a b)
]

pub leftover-append : (cur a b : Bytes) → leftover cur (a ++ b) ≡ leftover (leftover cur a) b
leftover-append cur [] b = refl
leftover-append cur (c ∷ a) b = elim (Bool-cases (c == 0)) [
  | inl zero_byte ↦ rw zero_byte (leftover-append [] a b)
  | inr text ↦ rw text (leftover-append (cur ++ (c ∷ [])) a b)
]

-- A text without a zero byte.
pub records-text : (cur b : Bytes) → IsText b → (records cur b ≡ []) × (leftover cur b ≡ cur ++ b)
records-text cur [] t = (refl, sym (append-nil cur))
records-text cur (c ∷ b) t =
    let text : (c == 0) ≡ false = ground (arith, t.0) in
    let (r, l) = records-text (cur ++ (c ∷ [])) b t.1 in
    rw text (r, l ∙ append_assoc cur (c ∷ []) b)

leftover-IsText : (cur b : Bytes) → IsText cur → IsText (leftover cur b)
leftover-IsText cur [] t = t
leftover-IsText cur (c ∷ b) t = elim (Bool-cases (c == 0)) [
  | inl zero_byte ↦ rw zero_byte (leftover-IsText [] b tt)
  | inr text ↦ rw text (
      leftover-IsText (cur ++ (c ∷ [])) b
        (All-append (λ x. x ≢ 0) cur (c ∷ []) t ((λ e. ground arith), tt)))
]

-- A text is free of zero bytes, or it is one that is, a zero byte, and a shorter text.
drop-split : (front rest : Bytes) → drop (length front + 1) (front ++ (0 ∷ rest)) ≡ rest
drop-split front rest =
    ap (λ (k : ℕ). drop k (front ++ (0 ∷ rest))) {y = suc (length front)} (omega arith)
    ∙ drop_suc front rest
  where
    drop_suc : (f r : Bytes) → drop (suc (length f)) (f ++ (0 ∷ r)) ≡ r
    drop_suc [] r = refl
    drop_suc (x ∷ f) r = drop_suc f r

data Cut (b : Bytes) : Type 0 where
  whole : IsText b → Cut b
  split : (front rest : Bytes) → IsText front → b ≡ front ++ (0 ∷ rest) → Cut b

cut_more : (c : ℕ) (b : Bytes) → c ≢ 0 → Cut b → Cut (c ∷ b)
cut_more c b h (whole t) = whole (h, t)
cut_more c b h (split front rest t e) = split (c ∷ front) rest (h, t) (ap (◌∷◌ c) e)

cut : (b : Bytes) → Cut b
cut [] = whole tt
cut (c ∷ b) = elim (ℕ_discrete c 0) [
  | yes e ↦ split [] b tt (ap (λ (t : ℕ). t ∷ b) e)
  | no h ↦ cut_more c b h (cut b)
]

-- The first record of a text.
records-split :
    (front rest : Bytes)
    → IsText front
    → (records [] (front ++ (0 ∷ rest)) ≡ front ∷ records [] rest)
      × (leftover [] (front ++ (0 ∷ rest)) ≡ leftover [] rest)
records-split front rest t =
    let (r, l) = records-text [] front t in
    (records-append [] front (0 ∷ rest) ∙ rw (r, l) refl, leftover-append [] front (0 ∷ rest))

-- A text in front of other bytes is what was left over.
behind-text :
    (front b : Bytes)
    → IsText front
    → (records [] (front ++ b) ≡ records front b) × (leftover [] (front ++ b) ≡ leftover front b)
behind-text front b t =
    let (r, l) = records-text [] front t in
    (
      records-append [] front b ∙ rw r (ap (λ (x : Bytes). records x b) l),
      leftover-append [] front b ∙ ap (λ (x : Bytes). leftover x b) l,
    )

take_record-split :
    (front rest : Bytes) (c : Connection)
    → c.buffer ≡ front ++ (0 ∷ rest)
    → take_record (length front + 1) c
      ≡ record c { buffer = rest; enqueued = c.enqueued ++ (front ∷ []) }
unfolding take_record process
take_record-split front rest c e =
    let some_bytes : ltb 0 (length front + 1) ≡ true = ground arith in
    let size : length front + 1 - 1 ≡ length front = omega arith in
    let ahead : take (length front) c.buffer ≡ front = rw e (take-append_length front (0 ∷ rest)) in
    let behind : drop (length front + 1) c.buffer ≡ rest = rw e (drop-split front rest) in
    rw (some_bytes, size, ahead, behind) refl

module _ (read_until : Bytes → Option ℕ) (reads : ReadsUntil read_until) where
  -- A connection that has read all that it can.
  abbrev drained : Connection → Connection
  drained c = record c {
    buffer = leftover [] c.buffer;
    enqueued = c.enqueued ++ records [] c.buffer;
  }

  on_read-drained :
      (c : Connection) (next : Connection → Connection)
      → ((d : Connection) → length d.buffer < length c.buffer → next d ≡ drained d)
      → Cut c.buffer
      → on_read read_until (read_until c.buffer) c next ≡ drained c
  unfolding on_read handle_read
  on_read-drained c next ih (whole t) =
      let (r, l) = records-text [] c.buffer t in rw (reads.waits c.buffer t, r, l, append-nil) refl
  on_read-drained c next ih (split front rest t e) =
      let (r, l) = records-split front rest t in
      let found : read_until c.buffer ≡ some (length front + 1) = rw e (reads.finds front rest t) in
      let d : Connection = record c { buffer = rest; enqueued = c.enqueued ++ (front ∷ []) } in
      rw (found, take_record-split front rest c e)
        (ih d (omega (arith, ap length e, length-append front (0 ∷ rest)))
          ∙ rw (e, r, l) (rw append_assoc refl))

  do_read-drained :
      (fuel : ℕ) (c : Connection) → length c.buffer < fuel → do_read read_until fuel c ≡ drained c
  unfolding do_read
  do_read-drained zero c h = elim h [ ]
  do_read-drained (suc fuel) c h =
      on_read-drained c (do_read read_until fuel) (λ d less. do_read-drained fuel d (omega arith))
        (cut c.buffer)

  receive-drained :
      (block : Bytes) (c : Connection)
      → receive read_until block c ≡ drained (record c { buffer = c.buffer ++ block })
  unfolding receive
  receive-drained block c = do_read-drained (suc (length (c.buffer ++ block))) _ (omega arith)

  receive_all-drained :
      (blocks : List Bytes) (c : Connection)
      → IsText c.buffer
      → receive_all read_until blocks c ≡ drained (record c { buffer = c.buffer ++ joined blocks })
  unfolding receive_all
  receive_all-drained [] c t =
      let (r, l) = records-text [] c.buffer t in
      rw (append-nil c.buffer) (rw (r, l, append-nil c.enqueued) refl)
  receive_all-drained (b ∷ bs) c t =
      let front : Bytes = c.buffer ++ b in
      let left : Bytes = leftover [] front in
      let (r, l) = behind-text left (joined bs) (leftover-IsText [] front tt) in
      rw (receive-drained b c) (
        receive_all-drained bs (drained (record c { buffer = front })) (leftover-IsText [] front tt)
        ∙ rw
            (
              r,
              l,
              sym (append_assoc c.buffer b (joined bs)),
              records-append [] front (joined bs),
              leftover-append [] front (joined bs),
            )
            (rw append_assoc refl))

  -- Bytes that arrive on a new connection, in blocks of any sizes: the records that are enqueued
  -- are those that a zero byte ends in the bytes as a whole, in order, and the bytes behind the
  -- last zero byte stay in the buffer. The hypothesis is what `async_read_until` documents.
  pub receive_all-records :
      (blocks : List Bytes)
      → ((receive_all read_until blocks accepted).enqueued ≡ records [] (joined blocks))
        × ((receive_all read_until blocks accepted).buffer ≡ leftover [] (joined blocks))
  receive_all-records blocks =
      let all = receive_all-drained blocks accepted tt in
      (ap (λ (c : Connection). c.enqueued) all, ap (λ (c : Connection). c.buffer) all)
