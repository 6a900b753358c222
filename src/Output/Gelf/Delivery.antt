-- ===== src/Output/Gelf/Delivery.antt =====
-- What one bulk passes on.
use iqlogger.Common.{
  IsText, ℕ, ◌+◌, ◌≤◌, ◌≡◌, ◌≢◌, refl, sym, ap, subst, ◌∙◌, true, false, Option, some, List, [],
  ◌∷◌, ◌++◌, append-nil, append_assoc, Bytes, All, All-append, length, length-append, arith, leb,
  ◌==◌, Bool-cases, inl, inr,
}
use mathlib.Core.Option
use mathlib.Core.List.Sublist
use iqlogger.Tcp.Frames.{records, leftover, records-append, leftover-append, records-text}
use iqlogger.Output.Gelf.{Sender, Filling, flush, buff_len, put, put_rest, fill}
use iqlogger.Output.Gelf.Attempts.{Sends, sends, IsReady, flush-Sends, both-Sends}

-- A record that is neither empty nor has a zero byte in it.
abbrev pub IsRecord : Bytes → Type 0
IsRecord b = IsText b × (b ≢ [])

abbrev pub encode : List Bytes → Bytes
encode [] = []
encode (x ∷ xs) = x ++ (0 ∷ encode xs)

encode-append : (xs ys : List Bytes) → encode (xs ++ ys) ≡ encode xs ++ encode ys
encode-append [] ys = refl
encode-append (x ∷ xs) ys =
    ap (λ (t : Bytes). x ++ (0 ∷ t)) (encode-append xs ys)
    ∙ sym (append_assoc x (0 ∷ encode xs) (encode ys))

encode-records :
    (xs : List Bytes)
    → All IsRecord xs
    → (records [] (encode xs) ≡ xs) × (leftover [] (encode xs) ≡ [])
encode-records [] h = (refl, refl)
encode-records (x ∷ xs) h =
    let (r, l) = records-text [] x h.0.0 in
    let (r', l') = encode-records xs h.1 in
    (
      records-append [] x (0 ∷ encode xs) ∙ rw (r, l, r') refl,
      leftover-append [] x (0 ∷ encode xs) ∙ l',
    )

abbrev pub total : List Bytes → ℕ
total [] = 0
total (x ∷ xs) = length x + total xs

total-append : (xs ys : List Bytes) → total (xs ++ ys) ≡ total xs + total ys
total-append [] ys = omega arith
total-append (x ∷ xs) ys = omega (arith, total-append xs ys)

pub nothing-Sends : (s : Sender) → IsReady 0 s → Sends false s [] 0 0 (some s)
nothing-Sends s rd =
    sends s [] refl (sym (append-nil _)) (Sublist.refl []) rd.whole (omega arith) rd.runs
      (omega arith) (λ _ all. (refl, refl, all))

-- The records that wait in the buffer.
pub record Holds (pending : List Bytes) (f : Filling) : Type 0 where
  buff_encode : f.buff ≡ encode pending
  len_total : f.current_buff_len ≡ total pending
  records : All IsRecord pending

nonempty_length : (b : Bytes) → b ≢ [] → 1 ≤ length b
nonempty_length [] h = absurd (h refl)
nonempty_length (c ∷ b) h = omega arith

put_rest-Sends :
    (pending : List Bytes) (f : Filling)
    → Holds pending f
    → IsReady (length pending) f.sender
    → Sends false f.sender pending (length pending) 0 (put_rest f)
unfolding put_rest
put_rest-Sends [] f h ready = rw (h.len_total) (nothing-Sends f.sender ready)
put_rest-Sends (x ∷ xs) f h ready =
    let some_bytes : (f.current_buff_len == 0) ≡ false =
      ground (arith, h.len_total, nonempty_length x h.records.0.1) in
    rw (some_bytes, h.buff_encode)
      (flush-Sends (encode (x ∷ xs)) (x ∷ xs) (length (x ∷ xs)) f.sender
        (encode-records (x ∷ xs) h.records) (omega arith) ready)

-- One more record in the buffer.
Holds-more :
    (pending : List Bytes) (str : Bytes) (f : Filling)
    → Holds pending f
    → IsRecord str
    → Holds (pending ++ (str ∷ [])) (record f {
      buff = f.buff ++ (str ++ (0 ∷ []));
      current_buff_len = f.current_buff_len + length str;
    })
Holds-more pending str f h new = record {
  buff_encode =
      ap (λ (t : Bytes). t ++ (str ++ (0 ∷ []))) h.buff_encode
      ∙ sym (encode-append pending (str ∷ []));
  len_total = omega (arith, h.len_total, total-append pending (str ∷ []));
  records = All-append IsRecord pending (str ∷ []) h.records (new, tt);
}

abbrev pub empty_buffer : Sender → Filling
empty_buffer s = record { buff = []; current_buff_len = 0; sender = s }

pub empty_buffer-Holds : (s : Sender) → Holds [] (empty_buffer s)
empty_buffer-Holds s = record { buff_encode = refl; len_total = refl; records = tt }

put_full :
    (str : Bytes) (f : Filling)
    → leb buff_len (f.current_buff_len + length str) ≡ true
    → put str f ≡ Option.map empty_buffer (flush (f.buff ++ (str ++ (0 ∷ []))) f.sender)
unfolding put
put_full str f full = rw full refl

put_room :
    (str : Bytes) (f : Filling)
    → leb buff_len (f.current_buff_len + length str) ≡ false
    → put str f
      ≡ some (record f {
        buff = f.buff ++ (str ++ (0 ∷ []));
        current_buff_len = f.current_buff_len + length str;
      })
unfolding put
put_room str f room = rw room refl

-- A bulk passes its records on, behind those that wait in the buffer.
abbrev pub FillSends : Filling → Option Sender → List Bytes → Type 0
FillSends f o recs = IsReady (length recs) f.sender → Sends false f.sender recs (length recs) 0 o

full-Sends :
    (more strs : List Bytes) (str : Bytes) (f : Filling)
    → Holds more (record f {
      buff = f.buff ++ (str ++ (0 ∷ []));
      current_buff_len = f.current_buff_len + length str;
    })
    → 1 ≤ length more
    → ((t : Sender) → FillSends (empty_buffer t) (fill strs (empty_buffer t)) strs)
    → FillSends f
        (Option.bind
          (Option.map empty_buffer (flush (f.buff ++ (str ++ (0 ∷ []))) f.sender))
          (fill strs))
        (more ++ strs)
unfolding Option.bind fill
full-Sends more strs str f h size next rd = rw (length-append more strs) (
    both-Sends (length more) (length strs) 0 0 more strs f.sender
      (flush (f.buff ++ (str ++ (0 ∷ []))) f.sender) _
      (omega (arith, rd.enough, length-append more strs))
      (rw (h.buff_encode) (
        flush-Sends (encode more) more (length more) f.sender (encode-records more h.records) size
          (record {
            whole = rd.whole;
            runs = rd.runs;
            enough = omega (arith, rd.enough, length-append more strs);
          })))
      (λ t e rt. rw e (next t rt)))

pub fill-Sends :
    (strs pending : List Bytes) (f : Filling)
    → Holds pending f
    → All IsRecord strs
    → FillSends f (fill strs f) (pending ++ strs)
unfolding fill Option.bind
fill-Sends [] pending f h new =
    subst (FillSends f (put_rest f)) (sym (append-nil pending)) (put_rest-Sends pending f h)
fill-Sends (str ∷ strs) pending f h new =
    let more : List Bytes = pending ++ (str ∷ []) in
    let held = Holds-more pending str f h new.0 in
    subst (FillSends f (Option.bind (put str f) (fill strs))) (append_assoc pending (str ∷ []) strs)
      (elim (Bool-cases (leb buff_len (f.current_buff_len + length str))) [
        | inl full ↦ rw (put_full str f full) (
            full-Sends more strs str f held (omega (arith, length-append pending (str ∷ [])))
              (λ t. fill-Sends strs [] (empty_buffer t) (empty_buffer-Holds t) new.1))
        | inr room ↦ rw (put_room str f room) (fill-Sends strs more _ held new.1)
      ])
