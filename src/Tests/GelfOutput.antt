-- ===== src/Tests/GelfOutput.antt =====
-- A sender whose first write fails.
use iqlogger.Common.{
  ◌%◌, ◌^◌, ◌≡◌, refl, true, some, List, [], ◌∷◌, Bytes, codes, joined, arith, All,
}
use mathlib.Core.Option
use mathlib.Core.List.{Sublist}
use iqlogger.Tcp.{receive_all, accepted}
use iqlogger.Output.Gelf.{
  Attempt, Sender, success, failure, reconnect, ready, passed_on, flush_loop, flush, put, put_rest,
  fill, count_sent, send_bulk, send_bulks, connected,
}
use iqlogger.Output.Gelf.Attempts.{received}
use iqlogger.Output.Gelf.Delivery.{IsRecord}
use iqlogger.Output.Gelf.Server.{send_bulks-received, send_bulks-enqueued}
use iqlogger.Tests.TcpInput.{find_zero, find_zero-ReadsUntil}

abbrev bulks : List (List Bytes)
bulks = (codes "ab" ∷ codes "c" ∷ []) ∷ (codes "d" ∷ []) ∷ []

-- Three bytes of the first buffer arrive, and the first record is sent again.
abbrev attempts : List Attempt
attempts = failure 3 true ∷ success ∷ success ∷ success ∷ []

abbrev calm : List Attempt
calm = success ∷ success ∷ success ∷ []

bulks-IsRecord : All (All IsRecord) bulks
bulks-IsRecord = (
  (((ground arith, (ground arith, tt)), ground arith), (((ground arith, tt), ground arith), tt)),
  (((((ground arith, tt), ground arith), tt)), tt),
)

send_bulks_run :
    Option.map (λ (s : Sender). received s) (send_bulks bulks (connected attempts))
    ≡ some (codes "ab" ∷ codes "ab" ∷ codes "c" ∷ codes "d" ∷ [])
unfolding send_bulks send_bulk fill put put_rest flush flush_loop ready reconnect passed_on
    count_sent Option.bind
send_bulks_run = refl

send_bulks-received_example :
    (t : Sender) × (send_bulks bulks (connected attempts) ≡ some t)
    × Sublist (joined bulks) (received t)
    × (t.send_counter % 2 ^ 64 ≡ 3 % 2 ^ 64)
send_bulks-received_example =
    send_bulks-received attempts bulks (refl, (tt, (tt, (tt, tt)))) bulks-IsRecord (omega arith)

send_bulks-enqueued_example :
    (receive_all find_zero
      ((b'a' ∷ []) ∷ (b'b' ∷ 0 ∷ b'c' ∷ 0 ∷ b'd' ∷ 0 ∷ []) ∷ [])
      accepted).enqueued
    ≡ codes "ab" ∷ codes "c" ∷ codes "d" ∷ []
unfolding send_bulks send_bulk fill put put_rest flush flush_loop ready passed_on count_sent
    Option.bind
send_bulks-enqueued_example =
    send_bulks-enqueued find_zero calm bulks
      ((b'a' ∷ []) ∷ (b'b' ∷ 0 ∷ b'c' ∷ 0 ∷ b'd' ∷ 0 ∷ []) ∷ []) find_zero-ReadsUntil
      (tt, (tt, (tt, tt))) bulks-IsRecord (omega arith) refl
