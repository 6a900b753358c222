-- ===== src/Tests/Forwarding.antt =====
-- Messages through an input, to two outputs, and from one instance to another.
use iqlogger.Common.{
  ℕ, ◌+◌, ◌≡◌, refl, false, none, some, List, [], ◌∷◌, ◌++◌, Bytes, codes, bytes_eq, ◌==◌,
  if◌then◌else◌, arith,
}
use mathlib.Core.Option
use iqlogger.Common.Result.{Result, ok, exception, std_exception, and_then}
use iqlogger.Gelf.Json.{string, Document, object, c_str, stoi}
use iqlogger.Gelf.Reading.{
  Gelf, gelf, read_members, read_version, read_nonempty, nonempty, read_full_message,
  read_timestamp, read_level, level_of,
}
use iqlogger.Gelf.Writing.{dump}
use iqlogger.Gelf.Message.{
  Codec, decompress, gelf_message, export_message, IsWritten, gelf_message-export_message,
}
use iqlogger.Output.Gelf.{
  success, put, put_rest, fill, flush, flush_loop, ready, passed_on, count_sent, send_bulk,
  send_bulks,
}
use iqlogger.Pipeline.{
  Input, Output, export_all, export_one, hand_on, import_messages, import_rounds, fan_out_rounds,
}
use iqlogger.Pipeline.Import.{all_messages, all_counted, values, import_rounds-messages}
use iqlogger.Pipeline.Export.{after_all, fan_out_rounds-after}
use iqlogger.Pipeline.Relay.{arrived, relay}
use iqlogger.Tcp.{receive_all, accepted}
use iqlogger.Tests.TcpInput.{find_zero, find_zero-ReadsUntil}
use iqlogger.Tests.GelfFormat.{whole_doubles, message, message-IsValid}

-- Records that are numbers; 0 is refused.
abbrev convert : ℕ → Result ℕ
convert n = if n == 0 then exception else ok (n + 1)

abbrev input : Input ℕ ℕ
input = record { queue = 4 ∷ 0 ∷ 5 ∷ 6 ∷ []; receive_counter = 0; to_processor = []; to_main = [] }

import_rounds_run :
    Option.map (λ (t : Input ℕ ℕ). t.to_main) (import_rounds convert false (2 ∷ 1 ∷ []) input)
    ≡ some (5 ∷ 6 ∷ [])
unfolding import_rounds import_messages hand_on export_all export_one Option.bind
import_rounds_run = refl

import_rounds-messages_example :
    (t : Input ℕ ℕ) × (import_rounds convert false (2 ∷ 1 ∷ []) input ≡ some t)
    × (all_messages convert false t ≡ all_messages convert false input)
    × (all_counted convert false t ≡ all_counted convert false input)
import_rounds-messages_example =
    import_rounds-messages convert false (2 ∷ 1 ∷ []) input
      (ground arith, (ground arith, (ground arith, (ground arith, tt))))

abbrev bad_level : Document ℕ
bad_level = object (
    (codes "version", string (codes "1.1"))
    ∷ (codes "host", string (codes "h"))
    ∷ (codes "short_message", string (codes "hi"))
    ∷ (codes "level", string (codes "x"))
    ∷ [])

-- A parser that reads every text as this document.
abbrev bad_codec : Codec ℕ
bad_codec = record {
  gunzip = λ b. none;
  inflate = λ b. none;
  parse = λ b. bad_level;
  write = λ d. [];
}

abbrev records : List Bytes
records = codes "{\"level\":\"x\"}" ∷ []

bad_level_std :
    gelf_message bad_codec whole_doubles 1_600_000_000 (codes "{\"level\":\"x\"}") ≡ std_exception
unfolding gelf_message decompress and_then gelf read_members read_version read_nonempty nonempty
    read_full_message read_timestamp read_level level_of bytes_eq c_str stoi
bad_level_std = refl

abbrev outputs : List (Output ℕ ℕ)
outputs =
    record { convert = convert; enqueued = [] }
    ∷ record { convert = λ n. ok n; enqueued = 9 ∷ [] }
    ∷ []

fan_out_rounds-after_example :
    fan_out_rounds ((1 ∷ 0 ∷ []) ∷ (2 ∷ []) ∷ []) outputs
    ≡ some (after_all (1 ∷ 0 ∷ 2 ∷ []) outputs)
fan_out_rounds-after_example = fan_out_rounds-after ((1 ∷ 0 ∷ []) ∷ (2 ∷ []) ∷ []) outputs (
  (ground arith, (ground arith, (ground arith, tt))),
  ((ground arith, (ground arith, (ground arith, tt))), tt),
)

-- Libraries that write every document as `{}.`, and read the one message.
abbrev codec : Codec ℕ
codec = record {
  gunzip = λ b. none;
  inflate = λ b. none;
  parse = λ b. dump message;
  write = λ d. codes "{}.";
}

message-IsWritten : IsWritten codec whole_doubles message
message-IsWritten = record {
  text = (ground arith, (ground arith, (ground arith, tt)));
  rest = codes "}.";
  braces = refl;
  size = omega arith;
  parses = refl;
}

gelf_message-export_message_example :
    gelf_message codec whole_doubles 1_700_000_000 (export_message codec whole_doubles message)
    ≡ ok message
gelf_message-export_message_example =
    gelf_message-export_message codec whole_doubles 1_700_000_000 message message-IsValid
      message-IsWritten

abbrev blocks : List Bytes
blocks = codes "{}" ∷ (b'.' ∷ 0 ∷ codes "{}.") ∷ (0 ∷ []) ∷ []

relay_example :
    (t : Input Bytes (Gelf ℕ)) × (import_rounds
        (gelf_message codec whole_doubles 1_700_000_000)
        false
        (1 ∷ 5 ∷ [])
        (arrived codec whole_doubles 1_700_000_000 2 (receive_all find_zero blocks accepted))
      ≡ some t)
    × (t.to_main ++ values (gelf_message codec whole_doubles 1_700_000_000) t.queue
        ≡ message ∷ message ∷ [])
unfolding send_bulks send_bulk fill put put_rest flush flush_loop ready passed_on count_sent
    Option.bind
relay_example =
    relay codec whole_doubles 1_700_000_000 (message ∷ message ∷ [])
      ((codes "{}." ∷ codes "{}." ∷ []) ∷ []) (success ∷ success ∷ []) blocks find_zero (1 ∷ 5 ∷ [])
      2 ((message-IsValid, message-IsWritten), ((message-IsValid, message-IsWritten), tt))
      (omega arith) refl
      (
        (
          ((ground arith, (ground arith, (ground arith, tt))), ground arith),
          (((ground arith, (ground arith, (ground arith, tt))), ground arith), tt),
        ),
        tt,
      )
      (tt, (tt, tt)) (omega arith) find_zero-ReadsUntil refl
