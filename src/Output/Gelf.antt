-- ===== src/Output/Gelf.antt =====
-- The thread of src/outputs/gelf/tcp/GelfOutput.cpp that sends the records of its queue to one
-- server, from the first connection on. The network answers each write, after what it has passed
-- on to the server; what `exportRecord` gives for a record is given.
pub mod Attempts
pub mod Delivery
pub mod Server
use iqlogger.Common.{
  ℕ, zero, suc, ◌+◌, ◌*◌, ◌%◌, ◌^◌, Bool, true, false, Option, none, some, List, [], ◌∷◌, ◌++◌,
  Bytes, leb, ◌==◌, if◌then◌else◌, length, take,
}
use mathlib.Core.Option

-- One round of the loop that writes: the whole buffer is passed on; or so many of its bytes are,
-- and the write fails, after which the thread runs on or is told to stop.
pub data Attempt : Type 0 where
  success : Attempt
  failure : ℕ → Bool → Attempt

-- The attempts that the network still grants, what was passed on over the connections that are
-- closed and over the last one, and `m_send_counter`.
pub record Sender : Type 0 where
  pub attempts : List Attempt
  pub closed : List Bytes
  pub current : Bytes
  pub send_counter : ℕ

abbrev pub buff_len : ℕ
buff_len = 8 * 4096

-- `reconnect`.
unfoldable pub reconnect : Sender → Sender
reconnect s = record s { closed = s.closed ++ (s.current ∷ []); current = [] }

-- `if (error)` of the loop.
unfoldable pub ready : Bool → Sender → Sender
unfolding reconnect
ready error s = if error then reconnect s else s

unfoldable pub passed_on : Bytes → List Attempt → Sender → Sender
passed_on bytes left s = record s { current = s.current ++ bytes; attempts = left }

-- The loop of `flush`, with the error of the round before; `none` if the thread is still at it when
-- the attempts end.
unfoldable pub flush_loop : Bool → Bytes → List Attempt → Sender → Option Sender
unfolding ready passed_on
flush_loop error str [] s = none
flush_loop error str (success ∷ left) s = some (passed_on str left (ready error s))
flush_loop error str (failure n running ∷ left) s =
    let tried = passed_on (take n str) left (ready error s) in
    let again = flush_loop true str left tried in if running then again else some tried

unfoldable pub flush : Bytes → Sender → Option Sender
unfolding flush_loop
flush str s = flush_loop false str s.attempts s

-- The buffer, `current_buff_len`, and the connection.
pub record Filling : Type 0 where
  pub buff : Bytes
  pub current_buff_len : ℕ
  pub sender : Sender

-- The body of the loop over a bulk.
unfoldable pub put : Bytes → Filling → Option Filling
unfolding flush
put str f =
    let buff = f.buff ++ (str ++ (0 ∷ [])) in
    let len = f.current_buff_len + length str in
    if leb buff_len len
    then Option.map (λ s. record { buff = []; current_buff_len = 0; sender = s })
        (flush buff f.sender)
    else some (record { buff = buff; current_buff_len = len; sender = f.sender })

-- What is left in the buffer behind the loop.
unfoldable pub put_rest : Filling → Option Sender
unfolding flush
put_rest f = if f.current_buff_len == 0 then some f.sender else flush f.buff f.sender

unfoldable pub fill : List Bytes → Filling → Option Sender
unfolding put put_rest
fill [] f = put_rest f
fill (str ∷ strs) f = Option.bind (put str f) (fill strs)

-- `m_send_counter += count`.
unfoldable pub count_sent : ℕ → Sender → Sender
count_sent n s = record s { send_counter = (s.send_counter + n) % 2 ^ 64 }

-- The records of one bulk, as they are exported.
unfoldable pub send_bulk : List Bytes → Sender → Option Sender
unfolding fill count_sent
send_bulk [] s = some s
send_bulk (str ∷ strs) s =
    Option.map (count_sent (length (str ∷ strs)))
      (fill (str ∷ strs) (record { buff = []; current_buff_len = 0; sender = s }))

unfoldable pub send_bulks : List (List Bytes) → Sender → Option Sender
unfolding send_bulk
send_bulks [] s = some s
send_bulks (strs ∷ bulks) s = Option.bind (send_bulk strs s) (send_bulks bulks)

abbrev pub connected : List Attempt → Sender
connected attempts = record { attempts = attempts; closed = []; current = []; send_counter = 0 }
