-- ===== src/Output/Gelf/Server.antt =====
-- What a server receives of the records of a queue: from the bulks to the other end.
use iqlogger.Common.{
  false, map, ℕ, suc, ◌%◌, ◌^◌, ◌≤◌, ◌≡◌, refl, sym, ap, ◌∙◌, Option, none, some, List, [], ◌∷◌,
  ◌++◌, Bytes, All, length, length-append, arith, joined,
}
use mathlib.Core.Option
use mathlib.Core.List.{Sublist}
use iqlogger.Tcp.{ReadsUntil, receive_all, accepted}
use iqlogger.Tcp.Frames.{records, receive_all-records}
use iqlogger.Output.Gelf.{
  Attempt, success, failure, Sender, count_sent, send_bulk, send_bulks, connected,
}
use iqlogger.Output.Gelf.Attempts.{
  successes, RunsOn, IsSuccess, received, Sends, sends, IsReady, both-Sends,
}
use iqlogger.Output.Gelf.Delivery.{
  IsRecord, empty_buffer, empty_buffer-Holds, fill-Sends, nothing-Sends,
}

send_bulk-Sends :
    (strs : List Bytes) (s : Sender)
    → All IsRecord strs
    → IsReady (length strs) s
    → Sends false s strs (length strs) (length strs) (send_bulk strs s)
unfolding send_bulk count_sent
send_bulk-Sends [] s new rd = nothing-Sends s rd
send_bulk-Sends (str ∷ strs) s new rd =
    elim (fill-Sends (str ∷ strs) [] (empty_buffer s) (empty_buffer-Holds s) new rd) [
      | sends t got e q sub w u rs c clean ↦
          sends (count_sent (length (str ∷ strs)) t) got (rw e refl) q sub w u rs (omega (arith, c))
            clean
    ]

send_bulks-Sends :
    (bulks : List (List Bytes)) (s : Sender)
    → All (All IsRecord) bulks
    → IsReady (length (joined bulks)) s
    → Sends false s
        (joined bulks)
        (length (joined bulks))
        (length (joined bulks))
        (send_bulks bulks s)
unfolding send_bulks Option.bind
send_bulks-Sends [] s new rd = nothing-Sends s rd
send_bulks-Sends (strs ∷ bulks) s new rd =
    let size = length-append strs (joined bulks) in
    rw size (
      both-Sends (length strs) (length (joined bulks)) (length strs) (length (joined bulks)) strs
        (joined bulks) s (send_bulk strs s) _ (omega (arith, rd.enough, size))
        (send_bulk-Sends strs s new.0
          (record { whole = rd.whole; runs = rd.runs; enough = omega (arith, rd.enough, size) }))
        (λ t e rt. rw e (send_bulks-Sends bulks t new.1 rt)))

connected-IsReady :
    (n : ℕ) (attempts : List Attempt)
    → All RunsOn attempts
    → n ≤ successes attempts
    → IsReady n (connected attempts)
connected-IsReady n attempts runs h = record { whole = refl; runs = runs; enough = h }

-- Writes may fail, each after any part of the buffer, as long as the thread is not told to stop: if
-- as many attempts succeed as there are records, and no record is empty or has a zero byte in it,
-- then the thread gets through all bulks, a server that splits each connection at the zero bytes
-- receives every record, in order, though perhaps some of them again, and the counter of sent
-- records is their number modulo 2 ^ 64, each counted once.
pub send_bulks-received :
    (attempts : List Attempt) (bulks : List (List Bytes))
    → All RunsOn attempts
    → All (All IsRecord) bulks
    → length (joined bulks) ≤ successes attempts
    → (t : Sender) × (send_bulks bulks (connected attempts) ≡ some t)
      × Sublist (joined bulks) (received t)
      × (t.send_counter % 2 ^ 64 ≡ length (joined bulks) % 2 ^ 64)
send_bulks-received attempts bulks runs new h =
    elim (send_bulks-Sends bulks (connected attempts) new (connected-IsReady _ attempts runs h)) [
      | sends t got e q sub w u rs c clean ↦ (t, e, rw q sub, omega (arith, c))
    ]

-- What the thread has passed on over its last connection.
abbrev pub stream_of : Option Sender → Bytes
stream_of none = []
stream_of (some s) = s.current

IsSuccess-RunsOn :
    (attempts : List Attempt)
    → All IsSuccess attempts
    → All RunsOn attempts × (successes attempts ≡ length attempts)
IsSuccess-RunsOn [] all = (tt, refl)
IsSuccess-RunsOn (success ∷ left) all =
    let (runs, size) = IsSuccess-RunsOn left all.1 in ((tt, runs), ap suc size)
IsSuccess-RunsOn (failure n running ∷ left) all = elim all.0 [ ]

-- The output of one instance feeds the input of another: if no write fails, and the attempts are as
-- many as the records at least, then the connection of the TCP input, however the network cuts what
-- the sender passes on into blocks, hands the very records on that were exported, in their order.
-- The records are not empty and have no zero byte in them, and the hypothesis on the read is what
-- `async_read_until` documents.
pub send_bulks-enqueued :
    (read_until : Bytes → Option ℕ) (attempts : List Attempt) (bulks : List (List Bytes))
    (blocks : List Bytes)
    → ReadsUntil read_until
    → All IsSuccess attempts
    → All (All IsRecord) bulks
    → length (joined bulks) ≤ length attempts
    → joined blocks ≡ stream_of (send_bulks bulks (connected attempts))
    → (receive_all read_until blocks accepted).enqueued ≡ joined bulks
send_bulks-enqueued read_until attempts bulks blocks reads all new h e =
    let (runs, size) = IsSuccess-RunsOn attempts all in
    elim (send_bulks-Sends bulks (connected attempts) new
      (connected-IsReady _ attempts runs (omega (arith, h, size)))) [
        | sends t got e' r sub w u rs c clean ↦
            let (g, k, b) = clean refl all in
            let (sent, left) = receive_all-records read_until reads blocks in
            sent
            ∙ ap (records []) (e ∙ ap stream_of e')
            ∙ sym (ap (λ (x : List Bytes). joined (map (records []) x) ++ records [] t.current) k)
            ∙ r
            ∙ g
      ]
