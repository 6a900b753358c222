-- ===== src/Config.antt =====
-- The configuration of inputs and outputs: src/config/input/InputConfig.cpp, its header
-- InputConfig.h.in, src/config/output/OutputConfig.cpp, src/config/core/QueueOverflowStrategy.h; and
-- what the constructor of src/inputs/tail/TailInput.cpp takes from it. A JSON value is given by the
-- conversions of the library (`none` if one throws its exception), and the types of the inputs and
-- outputs, which the build generates, by their names.
pub mod Source
pub mod TailSettings
use iqlogger.Common.{
  ℕ, Bool, true, false, not, ◌&&◌, ◌||◌, Option, none, some, List, [], ◌∷◌, ◌++◌, Bytes, codes,
  bytes_eq, if◌then◌else◌, ◌==◌,
}
use iqlogger.Common.Table.{bytes_key, lookup, insert}
use iqlogger.Queue.{Strategy, undefined, throttle, drop}
use mathlib.Core.Option

-- What reading gives: a value, an exception of the JSON library, `std::out_of_range` for a name
-- that is in no table, or an exception of `std::filesystem`.
pub data Read (A : Type 0) : Type 0 where
  read : A → Read A
  json_error : Read A
  out_of_range : Read A
  file_error : Read A

unfoldable pub then_read : {A B : Type 0} → Read A → (A → Read B) → Read B
then_read (read a) f = f a
then_read json_error f = json_error
then_read out_of_range f = out_of_range
then_read file_error f = file_error

unfoldable pub converted : {A : Type 0} → Option A → Read A
converted none = json_error
converted (some a) = read a

-- `get_to`.
unfoldable pub get : {J A : Type 0} → (J → Option A) → Option J → Read A
unfolding converted
get convert none = json_error
get convert (some j) = converted (convert j)

-- `at` of a table of names.
unfoldable pub found : {A : Type 0} → Option A → Read A
found none = out_of_range
found (some a) = read a

-- `QueueOverflowStrategy::strategy_to_str` and `strategy_from_str`.
abbrev pub strategy_to_str : Strategy → Bytes
strategy_to_str undefined = codes "undefined"
strategy_to_str throttle = codes "throttle"
strategy_to_str drop = codes "drop"

unfoldable pub strategy_from_str : Bytes → Option Strategy
strategy_from_str name =
    if bytes_eq name (codes "undefined")
    then some undefined
    else if bytes_eq name (codes "throttle")
    then some throttle
    else if bytes_eq name (codes "drop")
    then some drop
    else none

-- A name from a table, in `from_json` of an enumeration: a value that is no string is undefined.
unfoldable pub named : {A : Type 0} → (Bytes → Option A) → A → Option Bytes → Read A
unfolding found
named table default none = read default
named table default (some name) = found (table name)

unfoldable pub read_enum :
    {J A : Type 0} → (J → Option Bytes) → (Bytes → Option A) → A → Option J → Read A
unfolding named
read_enum as_string table default none = json_error
read_enum as_string table default (some j) = named table default (as_string j)

-- The conversions of a JSON value, and the names of the types.
pub record Library (J T : Type 0) : Type 0 where
  pub as_string : J → Option Bytes
  pub as_size : J → Option ℕ
  pub as_short : J → Option ℕ
  pub as_bool : J → Option Bool
  pub types : Bytes → Option T
  pub no_type : T

-- The file system under the scripts: `std::filesystem::exists` (`none` if it throws), the bytes of a
-- file (`none` if its size cannot be told), and the directory of the configuration.
pub record ScriptFiles : Type 0 where
  pub exists : Bytes → Option Bool
  pub content : Bytes → Option Bytes
  pub config_path : Bytes

pub record SourceConfig (J T : Type 0) : Type 0 where
  pub name : Bytes
  pub type : T
  pub threads : ℕ
  pub max_queue_size : ℕ
  pub overflow_strategy : Strategy
  pub processor : Option Bytes
  pub params : List (Bytes × J)

-- `ProcessorScript::loadFromFile`: the source stays empty if there is no size.
unfoldable pub load_from_file : Option Bytes → Bytes
load_from_file none = []
load_from_file (some bytes) = bytes

-- One probe: the script is the file, or what comes next is tried.
unfoldable pub probe : Option Bool → Option Bytes → Read (Option Bytes) → Read (Option Bytes)
unfolding load_from_file
probe none bytes next = file_error
probe (some true) bytes next = read (some (load_from_file bytes))
probe (some false) bytes next = next

module _ (files : ScriptFiles) where
  abbrev pub config_file : Bytes → Bytes
  config_file script = files.config_path ++ (codes "/" ++ script)

  -- `from_json` of a `ProcessorScript`.
  unfoldable pub find_script : Bytes → Read (Option Bytes)
  unfolding probe
  find_script script = probe (files.exists script) (files.content script) (
      probe (files.exists (config_file script)) (files.content (config_file script))
        (read (some script)))

  -- The member `processor`: one that is no string is left out.
  unfoldable pub read_text : Option Bytes → Read (Option Bytes)
  unfolding find_script
  read_text none = read none
  read_text (some script) = find_script script

  unfoldable pub read_script : {J : Type 0} → (J → Option Bytes) → Option J → Read (Option Bytes)
  unfolding read_text
  read_script as_string none = read none
  read_script as_string (some j) = read_text (as_string j)

-- The limits of the queue, as they are after the `try`.
abbrev pub Limits : Type 0
Limits = ℕ × Strategy

unfoldable pub strategy_after : ℕ → Strategy → Read Strategy → Read Limits
strategy_after size default (read s) = read (size, s)
strategy_after size default json_error = read (size, default)
strategy_after size default out_of_range = out_of_range
strategy_after size default file_error = file_error

unfoldable pub limits_after : Limits → Read ℕ → Read Strategy → Read Limits
unfolding strategy_after
limits_after (size, default) (read n) strategy = strategy_after n default strategy
limits_after limits json_error strategy = read limits
limits_after limits out_of_range strategy = out_of_range
limits_after limits file_error strategy = file_error

abbrev pub defaults : Limits
defaults = (10_000, throttle)

-- The keys that are no parameters.
unfoldable pub is_source_key : Bytes → Bool
is_source_key key =
    bytes_eq key (codes "name")
    || bytes_eq key (codes "type")
    || bytes_eq key (codes "threads")
    || bytes_eq key (codes "processor")
    || bytes_eq key (codes "max_queue_size")
    || bytes_eq key (codes "overflow_strategy")

unfoldable pub is_destination_key : Bytes → Bool
is_destination_key key =
    bytes_eq key (codes "name")
    || bytes_eq key (codes "type")
    || bytes_eq key (codes "threads")
    || bytes_eq key (codes "timeout")

-- The loop that keeps the other members.
unfoldable pub read_params :
    {J : Type 0} → (Bytes → Bool) → List (Bytes × J) → List (Bytes × J) → List (Bytes × J)
unfolding insert
read_params is_key [] params = params
read_params is_key ((key, j) ∷ ms) params =
    read_params is_key ms (if is_key key then params else insert key j params)

pub record DestinationConfig (J T : Type 0) : Type 0 where
  pub name : Bytes
  pub type : T
  pub threads : ℕ
  pub timeout : ℕ
  pub params : List (Bytes × J)

module _ {J T : Type 0} (library : Library J T) where
  -- `SourceConfig` from the members of an object.
  unfoldable pub read_source : ScriptFiles → List (Bytes × J) → Read (SourceConfig J T)
  unfolding then_read get read_enum limits_after strategy_from_str read_params is_source_key lookup
      read_script
  read_source files ms = then_read (get library.as_string (lookup (codes "name") ms)) (λ name.
      then_read
        (read_enum library.as_string library.types library.no_type (lookup (codes "type") ms))
        (λ type. then_read (get library.as_size (lookup (codes "threads") ms)) (λ threads.
          then_read
            (limits_after defaults (get library.as_size (lookup (codes "max_queue_size") ms)) (
              read_enum library.as_string strategy_from_str undefined
                (lookup (codes "overflow_strategy") ms)))
            (λ limits.
              then_read (read_script files library.as_string (lookup (codes "processor") ms))
                (λ script. read (record {
                  name = name;
                  type = type;
                  threads = threads;
                  max_queue_size = limits.0;
                  overflow_strategy = limits.1;
                  processor = script;
                  params = read_params is_source_key ms [];
                }))))))

  unfoldable pub read_timeout : Option J → Read ℕ
  unfolding get
  read_timeout none = read 60
  read_timeout (some j) = get library.as_size (some j)

  -- `DestinationConfig`.
  unfoldable pub read_destination : List (Bytes × J) → Read (DestinationConfig J T)
  unfolding then_read get read_enum read_timeout read_params is_destination_key lookup
  read_destination ms = then_read (get library.as_string (lookup (codes "name") ms)) (λ name.
      then_read
        (read_enum library.as_string library.types library.no_type (lookup (codes "type") ms))
        (λ type. then_read (get library.as_size (lookup (codes "threads") ms)) (λ threads.
          then_read (read_timeout (lookup (codes "timeout") ms)) (λ timeout. read (record {
            name = name;
            type = type;
            threads = threads;
            timeout = timeout;
            params = read_params is_destination_key ms [];
          })))))

  -- `getParam`.
  unfoldable pub get_param : {A : Type 0} → (J → Option A) → Bytes → List (Bytes × J) → Option A
  unfolding lookup Option.bind
  get_param convert key params = Option.bind (lookup key params) convert
