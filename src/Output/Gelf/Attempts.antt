-- ===== src/Output/Gelf/Attempts.antt =====
-- What a flush makes of the attempts that the network grants.
use iqlogger.Common.{
  subst, ℕ, suc, ◌+◌, ◌%◌, ◌^◌, ◌≤◌, ◌≡◌, refl, sym, ap, ◌∙◌, Bool, true, false, Option, some, List,
  [], ◌∷◌, ◌++◌, append-nil, append_assoc, Bytes, All, take, arith, joined, map,
}
use mathlib.Core.List.{Sublist}
use mathlib.Core.List.Sublist
use mathlib.Core.List.Sublistᴰ
use iqlogger.Tcp.Frames.{records, leftover, records-append, leftover-append}
use iqlogger.Output.Gelf.{
  Attempt, success, failure, Sender, ready, reconnect, passed_on, flush_loop, flush,
}

abbrev pub successes : List Attempt → ℕ
successes [] = 0
successes (success ∷ left) = suc (successes left)
successes (failure n running ∷ left) = successes left

-- The thread is not told to stop while a write fails.
abbrev pub RunsOn : Attempt → Type 0
RunsOn success = Unit
RunsOn (failure n running) = running ≡ true

abbrev pub IsSuccess : Attempt → Type 0
IsSuccess success = Unit
IsSuccess (failure n running) = ⊥

-- The records that one server has received: those that a zero byte ends on each connection.
abbrev pub received : Sender → List Bytes
received s = joined (map (records []) s.closed) ++ records [] s.current

-- How the sender comes to another state: it passes records on, in their order and perhaps with
-- others between them, ends with a complete record, uses so many successes, and counts so many
-- records as sent. If no attempt fails, and `error` says that none has failed before, these records
-- alone are passed on, over one connection.
pub data Sends (error : Bool) (s : Sender) (recs : List Bytes) (uses counts : ℕ) (o : Option Sender)
    : Type 0 where
  sends :
      (t : Sender) (got : List Bytes)
      → o ≡ some t
      → received t ≡ received s ++ got
      → Sublist recs got
      → leftover [] t.current ≡ []
      → successes s.attempts ≤ successes t.attempts + uses
      → All RunsOn t.attempts
      → t.send_counter % 2 ^ 64 ≡ (s.send_counter + counts) % 2 ^ 64
      → (error ≡ false
          → All IsSuccess s.attempts
          → (got ≡ recs) × (t.closed ≡ s.closed) × All IsSuccess t.attempts)
      → Sends error s recs uses counts o

joined-map-append :
    (xs : List Bytes) (x : Bytes)
    → joined (map (records []) (xs ++ (x ∷ []))) ≡ joined (map (records []) xs) ++ records [] x
joined-map-append [] x = append-nil (records [] x)
joined-map-append (y ∷ ys) x =
    ap (◌++◌ (records [] y)) (joined-map-append ys x) ∙ sym (append_assoc (records [] y) _ _)

received-ready : (error : Bool) (s : Sender) → received (ready error s) ≡ received s
unfolding ready reconnect
received-ready true s = append-nil _ ∙ joined-map-append s.closed s.current
received-ready false s = refl

received-passed_on :
    (b : Bytes) (left : List Attempt) (s : Sender)
    → received (passed_on b left s) ≡ received s ++ records (leftover [] s.current) b
unfolding passed_on
received-passed_on b left s =
    ap (◌++◌ (joined (map (records []) s.closed))) (records-append [] s.current b)
    ∙ sym (append_assoc (joined (map (records []) s.closed)) _ _)

-- The stream is at the beginning of a record.
ready-leftover :
    (error : Bool) (s : Sender)
    → (error ≡ false → leftover [] s.current ≡ [])
    → leftover [] (ready error s).current ≡ []
unfolding ready reconnect
ready-leftover true s h = refl
ready-leftover false s h = h refl

ready_counter : (error : Bool) (s : Sender) → (ready error s).send_counter ≡ s.send_counter
unfolding ready reconnect
ready_counter true s = refl
ready_counter false s = refl

passed_on-received :
    (error : Bool) (b : Bytes) (left : List Attempt) (s : Sender)
    → (error ≡ false → leftover [] s.current ≡ [])
    → received (passed_on b left (ready error s)) ≡ received s ++ records [] b
passed_on-received error b left s h =
    received-passed_on b left (ready error s)
    ∙ rw (ready-leftover error s h, received-ready error s) refl

-- A write fails, and what follows sends the records.
failed-Sends :
    (error : Bool) (n : ℕ) (str : Bytes) (left : List Attempt) (s : Sender) (o : Option Sender)
    → (error ≡ false → leftover [] s.current ≡ [])
    → Sends true (passed_on (take n str) left (ready error s)) (records [] str) 1 0 o
    → Sends error (record s { attempts = failure n true ∷ left }) (records [] str) 1 0 o
unfolding passed_on ready reconnect
failed-Sends error n str left s o h (sends t got e r sub l u rs c clean) =
    sends t (records [] (take n str) ++ got) e
      (r
        ∙ ap (λ (x : List Bytes). x ++ got) (passed_on-received error (take n str) left s h)
        ∙ append_assoc (received s) (records [] (take n str)) got)
      (Sublist.append ∣ Sublistᴰ.nil-sublist (records [] (take n str)) ∣₁ sub) l u rs
      (rw (sym (ready_counter error s)) c) (λ _ all. elim all.0 [ ])

flush_loop-Sends :
    (error : Bool) (str : Bytes) (attempts : List Attempt) (s : Sender)
    → (error ≡ false → leftover [] s.current ≡ [])
    → leftover [] str ≡ []
    → All RunsOn attempts
    → 1 ≤ successes attempts
    → Sends error
        (record s { attempts = attempts })
        (records [] str)
        1
        0
        (flush_loop error str attempts s)
unfolding flush_loop
flush_loop-Sends error str [] s h w runs some_left = absurd (omega (arith, some_left))
flush_loop-Sends error str (success ∷ left) s h w runs some_left =
    sends (passed_on str left (ready error s)) (records [] str) refl
      (passed_on-received error str left s h) (Sublist.refl (records [] str))
      (unfold passed_on in
        leftover-append [] (ready error s).current str ∙ rw (ready-leftover error s h) w)
      (unfold passed_on in omega arith) (unfold passed_on in runs.1)
      (unfold passed_on in rw (ready_counter error s) (omega arith))
      (λ e all. rw e (unfold passed_on ready in (refl, refl, all.1)))
flush_loop-Sends error str (failure n running ∷ left) s h w runs some_left = rw (runs.0) (
    failed-Sends error n str left s _ h (
      flush_loop-Sends true str left (passed_on (take n str) left (ready error s)) (λ e. cc) w
        runs.1 some_left))

-- A sender between two flushes: at the beginning of a record, and with so many successes to come.
pub record IsReady (n : ℕ) (s : Sender) : Type 0 where
  pub whole : leftover [] s.current ≡ []
  pub runs : All RunsOn s.attempts
  pub enough : n ≤ successes s.attempts

pub flush-Sends :
    (str : Bytes) (recs : List Bytes) (uses : ℕ) (s : Sender)
    → (records [] str ≡ recs) × (leftover [] str ≡ [])
    → 1 ≤ uses
    → IsReady uses s
    → Sends false s recs uses 0 (flush str s)
unfolding flush
flush-Sends str recs uses s (r, l) h rd =
    elim (flush_loop-Sends false str s.attempts s (λ e. rd.whole) l rd.runs
      (omega (arith, rd.enough))) [
        | sends t got e q sub w u rs c clean ↦
            sends t got e q (subst (λ (x : List Bytes). Sublist x got) r sub) w (omega (arith, u))
              rs c (rw (sym r) clean)
      ]

pub both-Sends :
    (n₁ n₂ k₁ k₂ : ℕ) (r₁ r₂ : List Bytes) (s : Sender) (o o' : Option Sender)
    → n₁ + n₂ ≤ successes s.attempts
    → Sends false s r₁ n₁ k₁ o
    → ((t : Sender) → o ≡ some t → IsReady n₂ t → Sends false t r₂ n₂ k₂ o')
    → Sends false s (r₁ ++ r₂) (n₁ + n₂) (k₁ + k₂) o'
both-Sends n₁ n₂ k₁ k₂ r₁ r₂ s o o' enough (sends t got e q sub w u rs c clean) next =
    elim (next t e (record { whole = w; runs = rs; enough = omega (arith, u, enough) })) [
      | sends t' got' e' q' sub' w' u' rs' c' clean' ↦
          sends t' (got ++ got') e'
            (q' ∙ ap (λ (x : List Bytes). x ++ got') q ∙ append_assoc (received s) got got')
            (Sublist.append sub sub') w' (omega (arith, u, u')) rs' (omega (arith, c, c'))
            (λ l all.
              let (g, k, b) = clean l all in
              let (g', k', b') = clean' l b in (rw (g, g') refl, k' ∙ k, b'))
    ]
