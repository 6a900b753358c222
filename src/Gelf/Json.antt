-- ===== src/Gelf/Json.antt =====
-- The JSON documents and the doubles that src/formats/gelf/GelfMessage.cpp reads and writes; the
-- strings of C; and `std::stoi`.
use iqlogger.Common.{
  ℕ, ◌+◌, ◌-◌, ◌*◌, ◌%◌, ◌^◌, Bool, true, false, ◌&&◌, ◌||◌, Option, none, some, List, [], ◌∷◌,
  Bytes, leb, ltb, ◌==◌, if◌then◌else◌,
}
use iqlogger.Common.Int.{ℤ, pos, negsuc}

-- The doubles: of an int, `std::stod` (`none` if it throws), and `< min_timestamp`.
pub record Doubles (D : Type 0) : Type 0 where
  pub of_int : ℤ → D
  pub stod : Bytes → Option D
  pub is_early : D → Bool

-- A value: `number` is one that is neither an int nor a double, with the double that it is without
-- loss if there is one; `other` is null, an array or an object.
pub data Value (D : Type 0) : Type 0 where
  string : Bytes → Value D
  int : ℤ → Value D
  double : D → Value D
  number : Option D → Value D
  bool : Bool → Value D
  other : Value D

-- What the parser of rapidjson makes of a text.
pub data Document (D : Type 0) : Type 0 where
  malformed : Document D
  not_object : Document D
  object : List (Bytes × Value D) → Document D

-- A `std::string` of a `const char*`: the bytes in front of the first zero byte.
unfoldable pub c_str : Bytes → Bytes
c_str [] = []
c_str (c ∷ cs) = let rest = c_str cs in if c == 0 then [] else c ∷ rest

-- The conversion of an `int` to an `unsigned char`.
unfoldable pub to_uchar : ℤ → ℕ
to_uchar (pos n) = n % 2 ^ 8
to_uchar (negsuc n) = 255 - n % 2 ^ 8

-- White space of the C locale.
unfoldable is_blank : ℕ → Bool
is_blank c = c == b' ' || leb 9 c && leb c 13

unfoldable is_decimal : ℕ → Bool
is_decimal c = leb b'0' c && leb c b'9'

-- The digits at the beginning, read behind `acc`.
unfoldable digits : ℕ → Bytes → ℕ
unfolding is_decimal
digits acc [] = acc
digits acc (c ∷ cs) =
    let rest = digits (acc * 10 + (c - b'0')) cs in if is_decimal c then rest else acc

-- The number with its sign, if it is in the range of `int`.
unfoldable in_range : Bool → ℕ → Option ℤ
in_range true n =
    if n == 0 then some (pos 0) else if leb n (2 ^ 31) then some (negsuc (n - 1)) else none
in_range false n = if ltb n (2 ^ 31) then some (pos n) else none

unfoldable unsigned : Bool → Bytes → Option ℤ
unfolding digits in_range is_decimal
unsigned minus [] = none
unsigned minus (c ∷ cs) = if is_decimal c then in_range minus (digits 0 (c ∷ cs)) else none

unfoldable signed : Bytes → Option ℤ
unfolding unsigned
signed [] = none
signed (c ∷ cs) =
    if c == b'-'
    then unsigned true cs
    else if c == b'+'
    then unsigned false cs
    else unsigned false (c ∷ cs)

-- `std::stoi`; `none` if it throws.
unfoldable pub stoi : Bytes → Option ℤ
unfolding signed is_blank
stoi [] = none
stoi (c ∷ cs) = let rest = stoi cs in if is_blank c then rest else signed (c ∷ cs)
