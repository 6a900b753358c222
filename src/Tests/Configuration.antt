-- ===== src/Tests/Configuration.antt =====
-- Configurations over JSON values that are strings, sizes and flags.
use iqlogger.Common.{
  ℕ, ◌≡◌, refl, Bool, true, false, Option, none, some, List, [], ◌∷◌, Bytes, codes, bytes_eq,
}
use iqlogger.Common.Table.{bytes_key, lookup}
use iqlogger.Queue.{throttle, drop}
use iqlogger.Config.{
  ScriptFiles, find_script, read, Library, SourceConfig, read_source, read_destination, get_param,
}
use iqlogger.Config.Source.{Printers, HasDefaults, read_source_no_size}
use iqlogger.Config.TailSettings.{built, tail_settings, IsSensible, tail_settings-IsSensible}

data Json : Type 0 where
  text : Bytes → Json
  size : ℕ → Json
  flag : Bool → Json

abbrev string_of : Json → Option Bytes
string_of (text b) = some b
string_of _ = none

abbrev size_of : Json → Option ℕ
size_of (size n) = some n
size_of _ = none

abbrev flag_of : Json → Option Bool
flag_of (flag b) = some b
flag_of _ = none

abbrev library : Library Json Bytes
library = record {
  as_string = string_of;
  as_size = size_of;
  as_short = size_of;
  as_bool = flag_of;
  types = λ b. some b;
  no_type = codes "undefined";
}

-- A file `/c/s.js`, and no other.
abbrev files : ScriptFiles
files = record {
  exists = λ p. some (bytes_eq p (codes "/c/s.js"));
  content = λ p. some (codes "g()");
  config_path = codes "/c";
}

find_script_run : find_script files (codes "s.js") ≡ read (some (codes "g()"))
unfolding find_script bytes_eq
find_script_run = refl

abbrev printers : Printers Json Bytes
printers = record { of_string = λ b. text b; of_size = λ n. size n; type_to_str = λ t. t }

abbrev source : SourceConfig Json Bytes
source = record {
  name = codes "a";
  type = codes "tail";
  threads = 2;
  max_queue_size = 100;
  overflow_strategy = drop;
  processor = some (codes "f()");
  params = (codes "path", text (codes "/v")) ∷ [];
}

abbrev no_size : List (Bytes × Json)
no_size =
    (codes "name", text (codes "a"))
    ∷ (codes "type", text (codes "tail"))
    ∷ (codes "threads", size 1)
    ∷ (codes "overflow_strategy", text (codes "drop"))
    ∷ []

-- `drop` is asked for, and not taken.
abbrev throttled : SourceConfig Json Bytes
throttled = record {
  name = codes "a";
  type = codes "tail";
  threads = 1;
  max_queue_size = 10_000;
  overflow_strategy = throttle;
  processor = none;
  params = [];
}

read_source_no_size_example : HasDefaults throttled
unfolding lookup bytes_eq read_source
read_source_no_size_example = read_source_no_size library files no_size throttled refl refl

tail_settings-IsSensible_example :
    IsSensible none (tail_settings library ((codes "path", text (codes "/v/")) ∷ []))
unfolding get_param lookup bytes_eq
tail_settings-IsSensible_example =
    tail_settings-IsSensible library ((codes "path", text (codes "/v/")) ∷ [])

tail_settings_run :
    tail_settings library ((codes "path", text (codes "/v/")) ∷ [])
    ≡ built (record {
      path = codes "/v";
      startmsg_regex = none;
      follow_only = false;
      save_state = true;
      read_timeout = 10;
    })
unfolding tail_settings lookup bytes_eq
tail_settings_run = refl

read_destination_run :
    read_destination library no_size
    ≡ read (record {
      name = codes "a";
      type = codes "tail";
      threads = 1;
      timeout = 60;
      params = (codes "overflow_strategy", text (codes "drop")) ∷ [];
    })
unfolding read_destination lookup bytes_eq
read_destination_run = refl
