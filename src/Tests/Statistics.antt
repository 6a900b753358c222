-- ===== src/Tests/Statistics.antt =====
-- Metrics with two names; a machine over records that are numbers; a message of a file.
use iqlogger.Common.{
  ℕ, ◌+◌, ◌≡◌, refl, true, false, Option, none, some, List, [], ◌∷◌, Bytes, codes, bytes_eq, ◌==◌,
  if◌then◌else◌,
}
use iqlogger.Common.Table.{bytes_key, lookup}
use iqlogger.Common.Result.{Result, ok, exception}
use iqlogger.Metrics.{
  process_metrics, Step, register, process, run_steps, no_metrics, process_metrics-registered,
}
use iqlogger.Processor.{Machine, process_rounds}
use iqlogger.Tail.Message.{
  TailMessage, Library, members_of, export_json, tail_message, IsParser, tail_message-export_json,
}

abbrev steps : List (Step ℕ)
steps =
    register (codes "a") 1 ∷ process (λ c. 7) ∷ register (codes "a") 2 ∷ register (codes "b") 3 ∷ []

process_metrics-registered_example :
    lookup (codes "a") (process_metrics (λ c. c + 10) (run_steps steps no_metrics)).current_metrics
    ≡ some 11
unfolding bytes_eq
process_metrics-registered_example = process_metrics-registered steps (λ c. c + 10) (codes "a")

-- 0 is ignored, 1 is refused.
abbrev script : ℕ → Result (Option ℕ)
script n = if n == 0 then ok none else if n == 1 then exception else ok (some (n + 1))

abbrev machine : Machine ℕ ℕ
machine = record { process_queue = 5 ∷ 0 ∷ 1 ∷ 6 ∷ []; to_main = []; running = true }

process_rounds_run : (process_rounds script (3 ∷ 9 ∷ []) machine).to_main ≡ 6 ∷ 7 ∷ []
unfolding process_rounds
process_rounds_run = refl

abbrev line : TailMessage
line = record { message = codes "x"; filename = codes "/l"; symlink_filename = some (codes "/k") }

-- Values that are strings; the parser gives the members of this message.
abbrev library : Library Bytes
library = record {
  write = λ ms. [];
  parse = λ text. some (
      (codes "data", codes "x")
      ∷ (codes "filename", codes "/l")
      ∷ (codes "symlink_filename", codes "/k")
      ∷ (codes "input", codes "i")
      ∷ []);
  is_object = λ j. false;
  dump = λ j. j;
  as_string = λ j. some j;
}

line-IsParser : IsParser library (λ b. b) (members_of (codes "i") line)
unfolding members_of
line-IsParser = record { parses = refl; no_object = λ b. refl; gives = λ b. refl }

tail_message-export_json_example :
    tail_message library (export_json library (codes "i") line) ≡ ok line
tail_message-export_json_example =
    tail_message-export_json library (λ b. b) (codes "i") line line-IsParser
