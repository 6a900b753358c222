-- ===== src/Pipeline/Relay.antt =====
-- From one instance to another: GELF messages that the first sends to the second.
use iqlogger.Common.{
  suc, ◌+◌, sym, true, ltb, if◌then◌else◌, append-nil, append_assoc, length-append, arith, ℕ, ◌≤◌,
  ◌≡◌, refl, ap, ◌∙◌, false, Option, some, List, [], ◌∷◌, ◌++◌, Bytes, All, length, joined, map,
}
use iqlogger.Gelf.Json.{Doubles}
use iqlogger.Gelf.Reading.{Gelf}
use iqlogger.Gelf.Valid.{IsValid}
use iqlogger.Gelf.Message.{
  Codec, export_message, gelf_message, IsWritten, gelf_message-export_message,
}
use iqlogger.Tcp.{Connection, ReadsUntil, receive_all, accepted}
use iqlogger.Output.Gelf.{Attempt, send_bulks, connected}
use iqlogger.Output.Gelf.Attempts.{IsSuccess}
use iqlogger.Output.Gelf.Delivery.{IsRecord}
use iqlogger.Output.Gelf.Server.{stream_of, send_bulks-enqueued}
use iqlogger.Pipeline.{Input, import_rounds}
use iqlogger.Pipeline.Import.{values, IsTame, import_rounds-messages}

module _ {A : Type 0} where
  -- `enqueue` of one record after the other, as the connection's thread calls it: a queue that is full
  -- does not take the record (the thread waits for room in place of that under the strategy
  -- `throttle`). No other thread uses the queue meanwhile, and then `size_approx` is its size.
  unfoldable pub enqueue_all : ℕ → List A → List A → List A
  enqueue_all max_queue_size queue [] = queue
  enqueue_all max_queue_size queue (x ∷ xs) =
      enqueue_all max_queue_size
        (if ltb (length queue) max_queue_size then queue ++ (x ∷ []) else queue) xs

  enqueue_all-room :
      (max_queue_size : ℕ) (queue xs : List A)
      → length queue + length xs ≤ max_queue_size
      → enqueue_all max_queue_size queue xs ≡ queue ++ xs
  unfolding enqueue_all
  enqueue_all-room max_queue_size queue [] h = sym (append-nil queue)
  enqueue_all-room max_queue_size queue (x ∷ xs) h =
      let room : ltb (length queue) max_queue_size ≡ true = ground arith in
      rw room (
        enqueue_all-room max_queue_size (queue ++ (x ∷ [])) xs
          (omega (arith, length-append queue (x ∷ [])))
        ∙ append_assoc queue (x ∷ []) xs)

length-map : {A B : Type 0} (f : A → B) (xs : List A) → length (map f xs) ≡ length xs
length-map f [] = refl
length-map f (x ∷ xs) = ap suc (length-map f xs)

module _ {D : Type 0} (codec : Codec D) (doubles : Doubles D) (now : D) where
  -- A well formed message whose document the libraries write and read.
  abbrev pub CanTravel : Gelf D → Type 0
  CanTravel g = IsValid doubles g × IsWritten codec doubles g

  -- The text of a message, and the message that is made of the text.
  texts-IsTame :
      (gs : List (Gelf D))
      → All CanTravel gs
      → All (IsTame (gelf_message codec doubles now)) (map (export_message codec doubles) gs)
        × (values (gelf_message codec doubles now) (map (export_message codec doubles) gs) ≡ gs)
  texts-IsTame [] h = (tt, refl)
  texts-IsTame (g ∷ gs) h =
      let same = gelf_message-export_message codec doubles now g h.0.0 h.0.1 in
      let (t, e) = texts-IsTame gs h.1 in (((λ std. cc), t), rw same (ap (◌∷◌ g) e))

  -- An input whose queue got the records of a connection.
  abbrev pub arrived : ℕ → Connection → Input Bytes (Gelf D)
  arrived max_queue_size c = record {
    queue = enqueue_all max_queue_size [] c.enqueued;
    receive_counter = 0;
    to_processor = [];
    to_main = [];
  }

  -- One instance sends GELF messages to another: the messages are well formed, the libraries write
  -- and read their documents, the sender gets the texts in bulks of any sizes, and no write fails.
  -- The queue of the input has room for all of them.
  -- Then in whatever blocks the bytes arrive, and in whatever rounds the input imports the records
  -- when they are in the queue, what it hands on to the main queue, with the messages of the records that still wait, are the
  -- messages that were sent, in their order.
  pub relay :
      (gs : List (Gelf D)) (bulks : List (List Bytes)) (attempts : List Attempt)
      (blocks : List Bytes) (read_until : Bytes → Option ℕ) (counts : List ℕ) (max_queue_size : ℕ)
      → All CanTravel gs
      → length gs ≤ max_queue_size
      → joined bulks ≡ map (export_message codec doubles) gs
      → All (All IsRecord) bulks
      → All IsSuccess attempts
      → length (joined bulks) ≤ length attempts
      → ReadsUntil read_until
      → joined blocks ≡ stream_of (send_bulks bulks (connected attempts))
      → (t : Input Bytes (Gelf D)) × (import_rounds
            (gelf_message codec doubles now)
            false
            counts
            (arrived max_queue_size (receive_all read_until blocks accepted))
          ≡ some t)
        × (t.to_main ++ values (gelf_message codec doubles now) t.queue ≡ gs)
  relay gs bulks attempts blocks read_until counts max_queue_size travel fits texts records all size
        reads cut =
      let c : Connection = receive_all read_until blocks accepted in
      let e : c.enqueued ≡ map (export_message codec doubles) gs =
        send_bulks-enqueued read_until attempts bulks blocks reads all records size cut ∙ texts in
      let (tame, vals) = texts-IsTame gs travel in
      let put : enqueue_all max_queue_size [] c.enqueued ≡ map (export_message codec doubles) gs =
        ap (enqueue_all max_queue_size []) e
        ∙ enqueue_all-room max_queue_size [] (map (export_message codec doubles) gs)
            (omega (arith, length-map (export_message codec doubles) gs)) in
      let (t, run, ms, counted) =
        import_rounds-messages (gelf_message codec doubles now) false counts
          (arrived max_queue_size c) (rw put tame) in
      (t, run, ms ∙ ap (values (gelf_message codec doubles now)) put ∙ vals)
