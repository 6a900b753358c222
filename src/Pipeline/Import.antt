-- ===== src/Pipeline/Import.antt =====
-- What an input hands on of the records of its queue.
use iqlogger.Common.{
  subst, Bool-cases, inl, inr, ℕ, ◌+◌, ◌%◌, ◌^◌, ◌<◌, ◌≡◌, ◌≢◌, refl, sym, ap, ◌∙◌, Bool, none,
  some, List, [], ◌∷◌, ◌++◌, append-nil, append_assoc, if◌then◌else◌, length, length-append, take,
  drop, take-append-drop, min, All, arith, suc, zero,
}
use iqlogger.Common.Result.{Result, ok, exception, std_exception}
use mathlib.Core.Option
use iqlogger.Pipeline.{
  max_queue_bulk_size, export_one, export_all, Input, hand_on, import_messages, import_rounds,
}

abbrev value_of : {B : Type 0} → Result B → List B → List B
value_of (ok b) rest = b ∷ rest
value_of exception rest = rest
value_of std_exception rest = rest

export_one-value_of :
    {B : Type 0} (r : Result B) (bs : List B)
    → r ≢ std_exception
    → export_one r (some bs) ≡ some (value_of r bs)
unfolding export_one
export_one-value_of (ok b) bs h = refl
export_one-value_of exception bs h = refl
export_one-value_of std_exception bs h = absurd (h refl)

value_of-append :
    {B : Type 0} (r : Result B) (bs cs : List B) → value_of r (bs ++ cs) ≡ value_of r bs ++ cs
value_of-append (ok b) bs cs = refl
value_of-append exception bs cs = refl
value_of-append std_exception bs cs = refl

export_one_std : {B : Type 0} (r : Result B) → export_one r none ≡ none
unfolding export_one
export_one_std (ok b) = refl
export_one_std exception = refl
export_one_std std_exception = refl

module _ {A B : Type 0} (convert : A → Result B) where
  -- The values of a list, without what throws.
  abbrev pub values : List A → List B
  values [] = []
  values (a ∷ xs) = value_of (convert a) (values xs)

  -- The conversion throws no exception of the standard library.
  abbrev pub IsTame : A → Type 0
  IsTame a = convert a ≢ std_exception

  pub export_all-values : (xs : List A) → All IsTame xs → export_all convert xs ≡ some (values xs)
  unfolding export_all
  export_all-values [] h = refl
  export_all-values (a ∷ xs) h =
      ap (export_one (convert a)) (export_all-values xs h.1)
      ∙ export_one-value_of (convert a) (values xs) h.0

  pub values-append : (xs ys : List A) → values (xs ++ ys) ≡ values xs ++ values ys
  values-append [] ys = refl
  values-append (a ∷ xs) ys =
      ap (value_of (convert a)) (values-append xs ys)
      ∙ value_of-append (convert a) (values xs) (values ys)

  pub export_all_std :
      (front : List A) (a : A) (back : List A)
      → convert a ≡ std_exception
      → export_all convert (front ++ (a ∷ back)) ≡ none
  unfolding export_all
  export_all_std [] a back h = rw h (unfold export_one in refl)
  export_all_std (x ∷ front) a back h =
      ap (export_one (convert x)) (export_all_std front a back h) ∙ export_one_std (convert x)

All-split {ℓ} :
    {A : Type ℓ} (P : A → Type 0) (n : ℕ) (xs : List A)
    → All P xs
    → All P (take n xs) × All P (drop n xs)
All-split P zero xs h = (tt, h)
All-split P (suc n) [] h = (tt, tt)
All-split P (suc n) (x ∷ xs) h = let (t, d) = All-split P n xs h.1 in ((h.0, t), d)

take_past :
    {A : Type 0} (n : ℕ) (front : List A) (a : A) (back : List A)
    → length front < n
    → (rest : List A) × (take n (front ++ (a ∷ back)) ≡ front ++ (a ∷ rest))
take_past zero front a back h = absurd (omega arith)
take_past (suc n) [] a back h = (take n back, refl)
take_past (suc n) (x ∷ front) a back h =
    let (rest, e) = take_past n front a back (omega (arith, h)) in (rest, ap (◌∷◌ x) e)

module _ {R M : Type 0} (export_message : R → Result M) (has_processor : Bool) where
  -- What was handed on to the queue behind the input.
  abbrev pub handed : Input R M → List M
  handed s = if has_processor then s.to_processor else s.to_main

  handed-hand_on :
      (ms : List M) (s : Input R M)
      → handed (hand_on export_message has_processor ms s) ≡ handed s ++ ms
  unfolding hand_on
  handed-hand_on [] s = sym (append-nil (handed s))
  handed-hand_on (m ∷ ms) s = elim (Bool-cases has_processor) [
    | inl yes_processor ↦ rw yes_processor refl
    | inr no_processor ↦ rw no_processor refl
  ]

  hand_on-queue :
      (ms : List M) (s : Input R M) → (hand_on export_message has_processor ms s).queue ≡ s.queue
  unfolding hand_on
  hand_on-queue [] s = refl
  hand_on-queue (m ∷ ms) s = refl

  hand_on_counter :
      (ms : List M) (s : Input R M)
      → (hand_on export_message has_processor ms s).receive_counter % 2 ^ 64
        ≡ (s.receive_counter + length ms) % 2 ^ 64
  unfolding hand_on
  hand_on_counter [] s = omega arith
  hand_on_counter (m ∷ ms) s = omega arith

  -- The messages that were handed on, and those of the records in the queue.
  abbrev pub all_messages : Input R M → List M
  all_messages s = handed s ++ values export_message s.queue

  -- The counter, with the messages of the records in the queue.
  abbrev pub all_counted : Input R M → ℕ
  all_counted s = (s.receive_counter + length (values export_message s.queue)) % 2 ^ 64

  module _ (count : ℕ) (s : Input R M) (h : All (IsTame export_message) s.queue) where
    abbrev bulk_size : ℕ
    bulk_size = min count max_queue_bulk_size

    abbrev imported : Input R M
    imported =
        hand_on export_message has_processor (values export_message (take bulk_size s.queue))
          (record s { queue = drop bulk_size s.queue })

    import_messages-imported : import_messages export_message has_processor count s ≡ some imported
    unfolding import_messages
    import_messages-imported =
        rw
          (export_all-values export_message (take bulk_size s.queue)
            (All-split (IsTame export_message) bulk_size s.queue h).0)
          refl

    imported-queue : imported.queue ≡ drop bulk_size s.queue
    imported-queue = hand_on-queue _ _

    values-imported :
        values export_message (take bulk_size s.queue) ++ values export_message imported.queue
        ≡ values export_message s.queue
    values-imported = rw imported-queue (
        sym (values-append export_message (take bulk_size s.queue) (drop bulk_size s.queue))
        ∙ ap (values export_message) (take-append-drop bulk_size s.queue))

    round_messages : all_messages imported ≡ all_messages s
    round_messages =
        ap (λ (x : List M). x ++ values export_message imported.queue) (handed-hand_on _ _)
        ∙ append_assoc (handed s) _ _
        ∙ ap (◌++◌ (handed s)) values-imported

    round_counted : all_counted imported ≡ all_counted s
    round_counted = omega (
      arith,
      hand_on_counter (values export_message (take bulk_size s.queue))
          (record s { queue = drop bulk_size s.queue }),
      ap length values-imported,
      length-append (values export_message (take bulk_size s.queue))
          (values export_message imported.queue),
    )

  -- In whatever rounds the thread imports the records of an input, if none of them throws an
  -- exception of the standard library: the rounds come to an end, what was handed on is, with
  -- the messages of the records that are still in the queue, the messages of all records in their
  -- order, those left out that throw an `Exception`, and the counter is their number modulo 2 ^ 64.
  pub import_rounds-messages :
      (counts : List ℕ) (s : Input R M)
      → All (IsTame export_message) s.queue
      → (t : Input R M) × (import_rounds export_message has_processor counts s ≡ some t)
        × (all_messages t ≡ all_messages s)
        × (all_counted t ≡ all_counted s)
  unfolding import_rounds Option.bind
  import_rounds-messages [] s h = (s, refl, refl, refl)
  import_rounds-messages (count ∷ counts) s h =
      let tame : All (IsTame export_message) (imported count s h).queue =
        subst (All (IsTame export_message)) (sym (imported-queue count s h))
          (All-split (IsTame export_message) (bulk_size count s h) s.queue h).1 in
      let (t, e, m, c) = import_rounds-messages counts (imported count s h) tame in
      (
        t,
        rw (import_messages-imported count s h) e,
        m ∙ round_messages count s h,
        c ∙ round_counted count s h,
      )

  -- A record that throws an exception of the standard library, as a GELF message does whose time or
  -- level is a string that is no number, ends the program as soon as it is imported.
  pub import_messages_std :
      (count : ℕ) (s : Input R M) (front : List R) (r : R) (back : List R)
      → s.queue ≡ front ++ (r ∷ back)
      → length front < min count max_queue_bulk_size
      → export_message r ≡ std_exception
      → import_messages export_message has_processor count s ≡ none
  unfolding import_messages
  import_messages_std count s front r back e h std =
      let n : ℕ = min count max_queue_bulk_size in
      let (rest, e') = take_past n front r back h in
      rw (e, e', export_all_std export_message front r rest std) refl
