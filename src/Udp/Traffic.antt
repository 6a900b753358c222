-- ===== src/Udp/Traffic.antt =====
-- A chunked message among other traffic: src/inputs/gelf/udp/Server.cpp and the thread of
-- src/inputs/gelf/udp/GelfInput.cpp, with its checks of the time limit between the bulks.
use iqlogger.Common.{
  ℕ, suc, ◌+◌, ◌-◌, ◌/◌, ◌≤◌, ◌<◌, ◌≡◌, ◌≢◌, ◌⊎◌, refl, sym, ap, ◌∙◌, Bool, false, none, List, [],
  ◌∷◌, ◌++◌, append_assoc, Bytes, length, All, arith, bytes_eq_iff, inl, inr,
}
use iqlogger.Common.Table.{bytes_key, lookup}
use iqlogger.Udp.Chunk.{GelfChunk}
use iqlogger.Udp.Session.{Received, received, bytes_received, process}
use iqlogger.Udp.Reassembly.{
  Record, ChunkedMessage, Reassembler, set_chunk, new_message, process_chunk, check_expired,
}
use iqlogger.Udp.Reassembly.Window.{has, has-set_chunk, length-set_chunk}
use iqlogger.Udp.Reassembly.Steps.{IsPart, Waiting, whole, process_chunk-new}
use iqlogger.Udp.Reassembly.Expiry.{check_expired-lookup}
use iqlogger.Udp.Reassembly.Order.{
  extended, process_chunk-extended, extended-Waiting, last_Delivered, opened, opened-Waiting,
}
use iqlogger.Udp.Delivery.{Arrival, arrival, part, process-arrival, Absent, AllDiffer}
use iqlogger.Udp.Others.{
  handle_received, handle_arrival, More, More-same, IsOther, handle_received-other, expire-none,
}

List-cases : {A : Type 0} (xs : List A) → (xs ≡ []) ⊎ ((x : A) × (ys : List A) × (xs ≡ x ∷ ys))
List-cases [] = inl refl
List-cases (x ∷ xs) = inr (x, xs, refl)

-- What happens at the input: the datagram of part i arrives and is handled; another datagram is; or
-- the thread checks the time limit.
pub data Turn (E : Type 0) : Type 0 where
  part_turn : ℕ → Turn E
  other_turn : Arrival E → Turn E
  check_turn : ℕ → Turn E

-- The parts, in the order of their arrival.
abbrev pub order_of : {E : Type 0} → List (Turn E) → List ℕ
order_of [] = []
order_of (part_turn i ∷ turns) = i ∷ order_of turns
order_of (_ ∷ turns) = order_of turns

module _ {E : Type 0} (ttl : ℕ) (id : Bytes) (n : ℕ) (content : ℕ → Bytes) (origin : ℕ → E)
    (time : ℕ → ℕ) (stale : ℕ → Bytes) where
  unfoldable pub perform : Turn E → Reassembler E → Reassembler E
  unfolding handle_arrival
  perform (part_turn i) s = handle_arrival (arrival id n content origin time stale i) s
  perform (other_turn a) s = handle_arrival a s
  perform (check_turn now) s = check_expired ttl now s

  unfoldable pub perform_all : List (Turn E) → Reassembler E → Reassembler E
  perform_all [] s = s
  perform_all (turn ∷ turns) s = perform_all turns (perform turn s)

  -- The other datagrams are no chunks of the message, and each check comes within the time limit of
  -- the message, which is opened at `start`.
  abbrev pub IsFine : ℕ → Turn E → Type 0
  IsFine start (part_turn i) = Unit
  IsFine start (other_turn a) =
      IsOther id (process (received a.datagram a.stale) (bytes_received a.datagram) a.endpoint)
  IsFine start (check_turn now) = (now - start) / 1_000_000_000 < ttl

  -- The record of the message is made, between others, and the table has no entry for the message.
  pub record IsMade (s t : Reassembler E) : Type 0 where
    pub before : List (Record E)
    pub after : List (Record E)
    pub enqueued : t.enqueued ≡ s.enqueued ++ (before ++ (whole id n content origin ∷ after))
    pub forgotten : lookup id t.chunk_map ≡ none

  IsMade-More : (s t u : Reassembler E) → More s t → IsMade t u → IsMade s u
  IsMade-More s t u (more, e) m = record {
    before = more ++ m.before;
    after = m.after;
    enqueued =
        m.enqueued
        ∙ rw e (
            append_assoc s.enqueued more (m.before ++ (whole id n content origin ∷ m.after))
            ∙ ap (◌++◌ s.enqueued)
                (sym (append_assoc more m.before (whole id n content origin ∷ m.after))));
    forgotten = m.forgotten;
  }

  -- Turns without a part.
  rest_More :
      (start : ℕ) (turns : List (Turn E)) (s : Reassembler E)
      → order_of turns ≡ []
      → All (IsFine start) turns
      → lookup id s.chunk_map ≡ none
      → More s (perform_all turns s) × (lookup id (perform_all turns s).chunk_map ≡ none)
  unfolding perform_all perform handle_arrival check_expired
  rest_More start [] s o f e = (More-same s s refl, e)
  rest_More start (part_turn i ∷ turns) s o f e = cc
  rest_More start (other_turn a ∷ turns) s o f e =
      let r : Received E =
        process (received a.datagram a.stale) (bytes_received a.datagram) a.endpoint in
      let ((more, made), same) = handle_received-other id a.handled r s f.0 in
      let ((later, made'), gone) =
        rest_More start turns (handle_received a.handled r s) o f.1 (same ∙ e) in
      ((more ++ later, made' ∙ rw made (append_assoc s.enqueued more later)), gone)
  rest_More start (check_turn now ∷ turns) s o f e =
      rest_More start turns (check_expired ttl now s) o f.1
        (expire-none ttl now id s.chunk_map s.bad_chunks e)

  handle_part :
      (i : ℕ) (s : Reassembler E)
      → length id ≡ 8
      → i < n
      → n < 128
      → content i ≢ []
      → length (content i) ≤ 4084
      → perform (part_turn i) s ≡ process_chunk (time i) (part id n content origin i) s
  unfolding perform handle_arrival handle_received
  handle_part i s h l k c b =
      ap (λ r. handle_received (time i) r s) (process-arrival id n content origin stale i h l k c b)

  part-IsPart : (i : ℕ) → i < n → IsPart id n content origin (part id n content origin i)
  part-IsPart i l = record {
    of_message = refl;
    of_count = refl;
    in_range = l;
    of_content = refl;
    of_origin = refl;
  }

  -- The parts that are still to come have other numbers.
  still_new :
      (i : ℕ) (c : GelfChunk E) (m : List (ℕ × GelfChunk E)) (order : List ℕ)
      → Absent i order
      → All (λ j. has j m ≡ false) order
      → All (λ j. has j (set_chunk i c m) ≡ false) order
  still_new i c m [] d f = tt
  still_new i c m (j ∷ order) d f =
      (ground (arith, has-set_chunk i j c m, d.0), still_new i c m order d.1 f.1)

  none_there : (order : List ℕ) → All (λ j. ◌≡◌ {A = Bool} (has {E = E} j []) false) order
  none_there [] = tt
  none_there (j ∷ order) = (refl, none_there order)

  module _ (h : length id ≡ 8) (k : n < 128) (c : (i : ℕ) → content i ≢ [])
      (b : (i : ℕ) → length (content i) ≤ 4084) where
    Waiting-IsMade_last :
        (start i : ℕ) (turns : List (Turn E)) (s : Reassembler E) (message : ChunkedMessage E)
        → i < n
        → Waiting id n content origin s message
        → has i message.chunks ≡ false
        → length message.chunks + 1 ≡ n
        → order_of turns ≡ []
        → All (IsFine start) turns
        → IsMade s (perform_all turns (perform (part_turn i) s))
    Waiting-IsMade_last start i turns s message l w new e o f =
        let p : GelfChunk E = part id n content origin i in
        let d =
          last_Delivered id n content origin (time i) p s message (omega arith) (part-IsPart i l) w
            (omega (arith, length-set_chunk i p message.chunks new)) in
        let gone : lookup id (process_chunk (time i) p s).chunk_map ≡ none =
          d.table id ∙ rw ((bytes_eq_iff id id).1 refl) refl in
        let ((more, made), none') = rest_More start turns (process_chunk (time i) p s) o f gone in
        rw (handle_part i s h l k (c i) (b i)) (record {
          before = [];
          after = more;
          enqueued =
              made
              ∙ ap (λ (x : List (Record E)). x ++ more) d.enqueued
              ∙ append_assoc s.enqueued (whole id n content origin ∷ []) more;
          forgotten = none';
        })

    Waiting-IsMade :
        (turns : List (Turn E)) (s : Reassembler E) (message : ChunkedMessage E)
        → Waiting id n content origin s message
        → All (IsFine message.time) turns
        → All (λ j. has j message.chunks ≡ false) (order_of turns)
        → All (λ j. j < n) (order_of turns)
        → AllDiffer (order_of turns)
        → length message.chunks + length (order_of turns) ≡ n
        → length message.chunks < n
        → IsMade s (perform_all turns s)
    unfolding perform_all
    Waiting-IsMade [] s message w f new l d e q = absurd (omega arith)
    Waiting-IsMade (other_turn a ∷ turns) s message w f new l d e q =
        let r : Received E =
          process (received a.datagram a.stale) (bytes_received a.datagram) a.endpoint in
        let (more, same) = handle_received-other id a.handled r s f.0 in
        IsMade-More s (perform (other_turn a) s) _ (unfold perform handle_arrival in more) (
          Waiting-IsMade turns (perform (other_turn a) s) message
            (record {
              found = unfold perform handle_arrival in (same ∙ w.found);
              of_size = w.of_size;
              window = w.window;
            })
            f.1 new l d e q)
    Waiting-IsMade (check_turn now ∷ turns) s message w f new l d e q =
        IsMade-More s (perform (check_turn now) s) _
          (More-same s (perform (check_turn now) s) (unfold perform check_expired in refl))
          (Waiting-IsMade turns (perform (check_turn now) s) message
            (record {
              found = (unfold perform in check_expired-lookup ttl now s id message w.found f.0);
              of_size = w.of_size;
              window = w.window;
            })
            f.1 new l d e q)
    Waiting-IsMade (part_turn i ∷ turns) s message w f new l d e q =
        elim (List-cases (order_of turns)) [
          | inl last ↦
              Waiting-IsMade_last message.time i turns s message l.0 w new.0
                (omega (arith, e, ap length last)) last f.1
          | inr (j, js, more) ↦
              let p : GelfChunk E = part id n content origin i in
              let grown = length-set_chunk i p message.chunks new.0 in
              let t = extended id n content origin p s message in
              let some_left : 1 ≤ length (order_of turns) = omega (arith, ap length more) in
              let step : perform (part_turn i) s ≡ t =
                handle_part i s h l.0 k (c i) (b i)
                ∙ process_chunk-extended id n content origin (time i) p s message (omega arith)
                    (part-IsPart i l.0) w (omega (arith, grown, some_left, e)) in
              rw step (
                IsMade-More s t _ (More-same s t refl) (
                  Waiting-IsMade turns t (record message { chunks = set_chunk i p message.chunks })
                    (extended-Waiting id n content origin p s message (part-IsPart i l.0) w) f.1
                    (still_new i p message.chunks (order_of turns) d.0 new.1) l.1 d.1
                    (omega (arith, grown, e)) (omega (arith, grown, some_left, e))))
        ]

    -- A message that a sender cuts into 2 to 127 parts, none of them empty or longer than 4,084 bytes
    -- (so that a datagram fits into the buffer of 4,096), under an identifier of 8 bytes that no
    -- message in the table has. Its datagrams reach the socket once each, in whatever order; between
    -- them any other datagrams arrive that are no chunks under its identifier, and the thread checks
    -- the time limit whenever it does, as long as the message is younger than the limit in whole
    -- seconds. Then a record with the parts put together in the order of their numbers, and with the
    -- source of part 0, is made, after the records that were there and among those of the other
    -- datagrams, and the table has no entry for the message. The queue between the socket and the
    -- thread has room for the chunks; what is made is what is handed to the queue of the input.
    pub perform_all-IsMade :
        (i : ℕ) (turns : List (Turn E)) (s : Reassembler E)
        → 2 ≤ n
        → All (IsFine (time i)) turns
        → All (λ j. j < n) (i ∷ order_of turns)
        → AllDiffer (i ∷ order_of turns)
        → suc (length (order_of turns)) ≡ n
        → lookup id s.chunk_map ≡ none
        → IsMade s (perform_all (part_turn i ∷ turns) s)
    unfolding perform_all
    perform_all-IsMade i turns s two f l d e absent =
        let p : GelfChunk E = part id n content origin i in
        let t : Reassembler E = new_message (time i) p s in
        let step : perform (part_turn i) s ≡ t =
          handle_part i s h l.0 k (c i) (b i)
          ∙ process_chunk-new id n content origin (time i) p s (omega arith) (part-IsPart i l.0)
              absent in
        let one = length-set_chunk i p [] refl in
        rw step (
          IsMade-More s t (perform_all turns t) (More-same s t (unfold new_message in refl)) (
            Waiting-IsMade turns t (opened id n content origin (time i) p)
              (opened-Waiting id n content origin (time i) p s (part-IsPart i l.0) absent) f
              (still_new i p [] (order_of turns) d.0 (none_there (order_of turns))) l.1 d.1
              (omega (arith, one, e)) (omega (arith, one, two))))
