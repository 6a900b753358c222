-- ===== src/Gelf/Message.antt =====
-- A message from the bytes of a record: `decompress` and the constructor of `GelfMessage` in
-- src/formats/gelf/GelfMessage.h. The decompressors of Boost (`none` if they throw one of their
-- errors) and the parser of rapidjson are given.
use iqlogger.Common.{
  IsText, ◌<◌, ◌&&◌, ◌||◌, ◌≡◌, refl, ap, Option, none, some, [], ◌∷◌, Bytes, ◌==◌, if◌then◌else◌,
  length, arith,
}
use iqlogger.Common.Result.{Result, ok, exception, and_then}
use iqlogger.Gelf.Json.{Doubles, Document, c_str}
use iqlogger.Gelf.Reading.{Gelf, gelf}
use iqlogger.Gelf.Writing.{dump}
use iqlogger.Gelf.Valid.{IsValid}
use iqlogger.Gelf.RoundTrip.{gelf-dump, c_str-text}

-- The libraries behind a message.
pub record Codec (D : Type 0) : Type 0 where
  pub gunzip : Bytes → Option Bytes
  pub inflate : Bytes → Option Bytes
  pub parse : Bytes → Document D
  pub write : Document D → Bytes

unfoldable pub unpacked : Option Bytes → Result Bytes
unpacked none = exception
unpacked (some b) = ok b

module _ {D : Type 0} (codec : Codec D) where
  -- A buffer of two bytes or less is refused; the first two bytes tell a compressed one.
  unfoldable pub decompress : Bytes → Result Bytes
  unfolding unpacked
  decompress (a ∷ b ∷ c ∷ cs) =
      if a == 31 && b == 139
      then unpacked (codec.gunzip (a ∷ b ∷ c ∷ cs))
      else if a == 120 && (b == 1 || b == 156 || b == 218)
      then unpacked (codec.inflate (a ∷ b ∷ c ∷ cs))
      else ok (a ∷ b ∷ c ∷ cs)
  decompress _ = exception

  module _ (doubles : Doubles D) where
    -- `now` is the time of the call. The parser reads up to a zero byte.
    unfoldable pub gelf_message : D → Bytes → Result (Gelf D)
    unfolding and_then decompress
    gelf_message now buffer =
        and_then (decompress buffer) (λ text. gelf doubles now (codec.parse (c_str text)))

    -- `exportMessage`.
    abbrev pub export_message : Gelf D → Bytes
    export_message g = codec.write (dump g)

    -- The libraries write the document of a message as a text without a zero byte, of three bytes
    -- at least, that begins with an opening brace, and read the document from this text.
    pub record IsWritten (g : Gelf D) : Type 0 where
      pub text : IsText (export_message g)
      pub rest : Bytes
      pub braces : export_message g ≡ b'{' ∷ rest
      pub size : 2 < length (export_message g)
      pub parses : codec.parse (export_message g) ≡ dump g

    decompress-brace :
        (rest : Bytes) → 2 < length (b'{' ∷ rest) → decompress (b'{' ∷ rest) ≡ ok (b'{' ∷ rest)
    unfolding decompress
    decompress-brace [] h = absurd (omega arith)
    decompress-brace (b ∷ []) h = absurd (omega arith)
    decompress-brace (b ∷ c ∷ cs) h = refl

    -- A well formed message is made again from the text that is exported for it, if the parser reads
    -- the document of the message from the text that the writer makes of it, and this text has three
    -- bytes at least, no zero byte, and an opening brace in front. (A message with a timestamp that is
    -- infinite or not a number is well formed, but has no such text.)
    pub gelf_message-export_message :
        (now : D) (g : Gelf D)
        → IsValid doubles g
        → IsWritten g
        → gelf_message now (export_message g) ≡ ok g
    unfolding gelf_message and_then
    gelf_message-export_message now g v w =
        let plain : decompress (export_message g) ≡ ok (export_message g) =
          rw (w.braces) (decompress-brace w.rest (omega (arith, w.size, ap length w.braces))) in
        rw (plain, c_str-text (export_message g) w.text, w.parses) (gelf-dump doubles now g v)
