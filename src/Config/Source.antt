-- ===== src/Config/Source.antt =====
-- The configuration of an input, as it is written and as it is read.
use iqlogger.Common.{
  ◌<◌, ◌^◌, ℕ, ◌≡◌, refl, ap, false, Option, none, some, List, ◌∷◌, Bytes, codes, subst,
}
use iqlogger.Common.Table.{bytes_key, lookup}
use iqlogger.Queue.{throttle}
use iqlogger.Config.{
  file_error, ScriptFiles, config_file, read_script, Read, read, json_error, out_of_range,
  then_read, get, strategy_to_str, read_enum, Library, SourceConfig, limits_after, read_source,
}

-- How values are written.
pub record Printers (J T : Type 0) : Type 0 where
  pub of_string : Bytes → J
  pub of_size : ℕ → J
  pub type_to_str : T → Bytes

module _ {J T : Type 0} (library : Library J T) (printers : Printers J T)
    (files : ScriptFiles) where
  -- What is written is read again.
  pub record AreInverse : Type 0 where
    pub strings : (b : Bytes) → library.as_string (printers.of_string b) ≡ some b
    pub sizes : (n : ℕ) → n < 2 ^ 64 → library.as_size (printers.of_size n) ≡ some n
    pub types : (t : T) → library.types (printers.type_to_str t) ≡ some t

  -- A script that stands in the configuration itself: it is the name of no file, and of none in the
  -- directory of the configuration.
  abbrev pub IsInline : Option Bytes → Type 0
  IsInline none = Unit
  IsInline (some p) =
      (files.exists p ≡ some false) × (files.exists (config_file files p) ≡ some false)

  abbrev script_member : Option Bytes → List (Bytes × J) → List (Bytes × J)
  script_member none ms = ms
  script_member (some p) ms = (codes "processor", printers.of_string p) ∷ ms

  -- The members of the object.
  abbrev pub print_source : SourceConfig J T → List (Bytes × J)
  print_source c =
      (codes "name", printers.of_string c.name)
      ∷ (codes "type", printers.of_string (printers.type_to_str c.type))
      ∷ (codes "threads", printers.of_size c.threads)
      ∷ (codes "max_queue_size", printers.of_size c.max_queue_size)
      ∷ (codes "overflow_strategy", printers.of_string (strategy_to_str c.overflow_strategy))
      ∷ script_member c.processor c.params

source_of : {A : Type 0} → A → Read A → A
source_of default (read a) = a
source_of default _ = default

read-injective : {A : Type 0} (a b : A) → read a ≡ read b → a ≡ b
unfolding source_of
read-injective a b e = ap (source_of a) e

-- The default limits of the queue.
abbrev pub HasDefaults : {J T : Type 0} → SourceConfig J T → Type 0
HasDefaults c = (c.max_queue_size ≡ 10_000) × (c.overflow_strategy ≡ throttle)

module _ {J T : Type 0} (library : Library J T) where
  read_defaults :
      {A : Type 0} (r : Read A) (f : A → Read (SourceConfig J T)) (c : SourceConfig J T)
      → ((a : A) → f a ≡ read c → HasDefaults c)
      → then_read r f ≡ read c
      → HasDefaults c
  unfolding then_read
  read_defaults (read a) f c h e = h a e
  read_defaults json_error f c h e = cc
  read_defaults out_of_range f c h e = cc
  read_defaults file_error f c h e = cc

  -- A configuration without a size of the queue that is read has the default size, and the default
  -- strategy too, whatever strategy it names.
  pub read_source_no_size :
      (files : ScriptFiles) (ms : List (Bytes × J)) (c : SourceConfig J T)
      → lookup (codes "max_queue_size") ms ≡ none
      → read_source library files ms ≡ read c
      → HasDefaults c
  unfolding read_source get limits_after
  read_source_no_size files ms c h e =
      read_defaults (get library.as_string (lookup (codes "name") ms)) _ c
        (λ name.
          read_defaults
            (read_enum library.as_string library.types library.no_type (lookup (codes "type") ms)) _
            c
            (λ type.
              read_defaults (get library.as_size (lookup (codes "threads") ms)) _ c (λ threads.
                read_defaults (read_script files library.as_string (lookup (codes "processor") ms))
                  _ c (λ script e. subst HasDefaults (read-injective _ c e) (refl, refl)))))
        (unfold then_read in rw h at e)
