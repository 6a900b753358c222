-- ===== src/Tail/Message.antt =====
-- `TailMessage` of src/formats/tail/TailMessage.h, which the script engine gets as JSON: the text that
-- is written, and the message that is made of one. The writer of rapidjson and the parser of nlohmann
-- are given, the latter by what it makes of a text (`none` if it throws).
use iqlogger.Common.{
  ◌≡◌, refl, ap, ◌∙◌, Bool, false, Option, none, some, List, [], ◌∷◌, Bytes, codes, bytes_eq,
  if◌then◌else◌,
}
use iqlogger.Common.Table.{bytes_key, lookup}
use iqlogger.Common.Result.{Result, ok, exception}
use mathlib.Core.Option

pub record TailMessage : Type 0 where
  pub message : Bytes
  pub filename : Bytes
  pub symlink_filename : Option Bytes

pub record Library (J : Type 0) : Type 0 where
  pub write : List (Bytes × Bytes) → Bytes
  pub parse : Bytes → Option (List (Bytes × J))
  pub is_object : J → Bool
  pub dump : J → Bytes
  pub as_string : J → Option Bytes

unfoldable pub symlink_member : Option Bytes → List (Bytes × Bytes) → List (Bytes × Bytes)
symlink_member none ms = ms
symlink_member (some link) ms = (codes "symlink_filename", link) ∷ ms

-- The members of the object, all of them strings; `input` is the name of the input.
unfoldable pub members_of : Bytes → TailMessage → List (Bytes × Bytes)
unfolding symlink_member
members_of input m =
    (codes "data", m.message)
    ∷ (codes "filename", m.filename)
    ∷ symlink_member m.symlink_filename ((codes "input", input) ∷ [])

module _ {J : Type 0} (library : Library J) where
  -- `exportMessage2Json`.
  unfoldable pub export_json : Bytes → TailMessage → Bytes
  unfolding members_of
  export_json input m = library.write (members_of input m)

  -- The member `data`: the text of an object, or a string.
  unfoldable pub text_of : J → Option Bytes
  text_of j = if library.is_object j then some (library.dump j) else library.as_string j

  -- Any exception of the library becomes one of the program; but a missing link's name is none.
  unfoldable pub made : Option Bytes → Option Bytes → Option Bytes → Result TailMessage
  made (some message) (some filename) link =
      ok (record { message = message; filename = filename; symlink_filename = link })
  made _ _ link = exception

  unfoldable pub string_at : Bytes → List (Bytes × J) → Option Bytes
  unfolding lookup Option.bind
  string_at key ms = Option.bind (lookup key ms) library.as_string

  unfoldable pub from_members : Option (List (Bytes × J)) → Result TailMessage
  unfolding made text_of string_at
  from_members none = exception
  from_members (some ms) =
      made (Option.bind (lookup (codes "data") ms) text_of) (string_at (codes "filename") ms)
        (string_at (codes "symlink_filename") ms)

  -- The constructor from a text.
  unfoldable pub tail_message : Bytes → Result TailMessage
  unfolding from_members
  tail_message json = from_members (library.parse json)

  abbrev values_of : (Bytes → J) → List (Bytes × Bytes) → List (Bytes × J)
  values_of string [] = []
  values_of string ((key, b) ∷ ms) = (key, string b) ∷ values_of string ms

  -- The parser reads what the writer has written of these members: the same members, each a string,
  -- whose text it gives.
  pub record IsParser (string : Bytes → J) (ms : List (Bytes × Bytes)) : Type 0 where
    pub parses : library.parse (library.write ms) ≡ some (values_of string ms)
    pub no_object : (b : Bytes) → library.is_object (string b) ≡ false
    pub gives : (b : Bytes) → library.as_string (string b) ≡ some b

  from_members-members_of :
      (string : Bytes → J) (input : Bytes) (m : TailMessage)
      → IsParser string (members_of input m)
      → from_members (some (values_of string (members_of input m))) ≡ ok m
  unfolding from_members members_of lookup made text_of string_at Option.bind bytes_eq
  from_members-members_of string input m h = links m.symlink_filename
    where
      links :
          (link : Option Bytes)
          → from_members
              (some (values_of string (members_of input (record m { symlink_filename = link }))))
            ≡ ok (record m { symlink_filename = link })
      links none = rw (h.no_object m.message, h.gives m.message, h.gives m.filename) refl
      links (some b) =
          rw (h.no_object m.message, h.gives m.message, h.gives m.filename, h.gives b) refl

  -- A message of a file that is written as JSON is made again of the text, with its file and with the
  -- link that leads there, or none; the parser must read what the writer has written.
  pub tail_message-export_json :
      (string : Bytes → J) (input : Bytes) (m : TailMessage)
      → IsParser string (members_of input m)
      → tail_message (export_json input m) ≡ ok m
  unfolding tail_message export_json
  tail_message-export_json string input m h =
      ap from_members (h.parses) ∙ from_members-members_of string input m h
