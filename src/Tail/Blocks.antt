-- ===== src/Tail/Blocks.antt =====
-- A file is read in blocks, and `processBuffer` sees one block at a time. Without a pattern it
-- keeps nothing of a block back.
use iqlogger.Common.{
  ℕ, ◌+◌, ◌<◌, ◌≡◌, refl, ap, false, Option, none, some, List, [], ◌∷◌, ◌++◌, Bytes, ◌==◌, length,
  length-append, arith, inl, inr, Bool-cases,
}
use iqlogger.Tail.Lines.{split_lines, split_lines-lines, emit, emit-append, lines}

-- The messages of two calls, one after the other.
abbrev pub both : Option (List Bytes) → Option (List Bytes) → Option (List Bytes)
both (some xs) (some ys) = some (xs ++ ys)
both _ _ = none

abbrev pub count : Option (List Bytes) → ℕ
count (some xs) = length xs
count none = 0

emit-append_rest : (m : Bytes) (xs ys : List Bytes) → emit m (xs ++ ys) ≡ emit m xs ++ ys
emit-append_rest [] xs ys = refl
emit-append_rest (c ∷ cs) xs ys = refl

lines-whole :
    (cur a b : Bytes) → lines cur (a ++ (b'\n' ∷ b)) ≡ lines cur (a ++ (b'\n' ∷ [])) ++ lines [] b
lines-whole cur [] b = emit-append cur (lines [] b)
lines-whole cur (c ∷ a) b = elim (Bool-cases (c == b'\n')) [
  | inl nl ↦ rw (nl, lines-whole [] a b) (emit-append_rest cur _ (lines [] b))
  | inr other ↦ rw other (lines-whole (cur ++ (c ∷ [])) a b)
]

emit-length :
    (cur : Bytes) (ms : List Bytes) → 0 < length cur → length (emit cur ms) ≡ length ms + 1
emit-length [] ms h = absurd (omega arith)
emit-length (c ∷ cs) ms h = omega arith

length-emit :
    (cur : Bytes) (ms : List Bytes) → length (emit cur ms) ≡ length (emit cur []) + length ms
length-emit [] ms = omega arith
length-emit (c ∷ cs) ms = omega arith

lines-length :
    (cur other b : Bytes)
    → 0 < length cur
    → 0 < length other
    → length (lines cur b) ≡ length (lines other b)
lines-length cur other [] h k = omega (arith, emit-length cur [] h, emit-length other [] k)
lines-length cur other (c ∷ b) h k = elim (Bool-cases (c == b'\n')) [
  | inl nl ↦ rw nl (omega (arith, emit-length cur (lines [] b) h, emit-length other (lines [] b) k))
  | inr text ↦ rw text (
      lines-length (cur ++ (c ∷ [])) (other ++ (c ∷ [])) b
        (omega (arith, length-append cur (c ∷ []))) (omega (arith, length-append other (c ∷ []))))
]

lines-cut :
    (cur a b : Bytes) (x y : ℕ)
    → (x == b'\n') ≡ false
    → (y == b'\n') ≡ false
    → length (lines cur (a ++ (x ∷ y ∷ b))) + 1
      ≡ length (lines cur (a ++ (x ∷ []))) + length (lines [] (y ∷ b))
lines-cut cur [] b x y h k =
    rw (h, k)
      (omega (
        arith,
        emit-length (cur ++ (x ∷ [])) [] (omega (arith, length-append cur (x ∷ []))),
        lines-length ((cur ++ (x ∷ [])) ++ (y ∷ [])) (y ∷ []) b
            (omega (arith, length-append (cur ++ (x ∷ [])) (y ∷ []))) (omega arith),
      ))
lines-cut cur (c ∷ a) b x y h k = elim (Bool-cases (c == b'\n')) [
  | inr text ↦ rw text (lines-cut (cur ++ (c ∷ [])) a b x y h k)
  | inl nl ↦ rw nl (
      omega (
        arith,
        lines-cut [] a b x y h k,
        length-emit cur (lines [] (a ++ (x ∷ y ∷ b))),
        length-emit cur (lines [] (a ++ (x ∷ []))),
      ))
]

-- A block that ends with a newline may be read apart from what follows it: the messages are those
-- of the two together.
pub split_lines-whole :
    (a b : Bytes)
    → split_lines (a ++ (b'\n' ∷ b)) ≡ both (split_lines (a ++ (b'\n' ∷ []))) (split_lines b)
split_lines-whole a b =
    rw
      (
        split_lines-lines (a ++ (b'\n' ∷ b)),
        split_lines-lines (a ++ (b'\n' ∷ [])),
        split_lines-lines b,
      )
      (ap some (lines-whole [] a b))

-- A line that two blocks share, cut between two bytes neither of which is a newline, is not put
-- together again: reading the two blocks one after the other gives one message more than
-- reading them as one.
pub split_lines-cut :
    (a b : Bytes) (x y : ℕ)
    → (x == b'\n') ≡ false
    → (y == b'\n') ≡ false
    → count (split_lines (a ++ (x ∷ y ∷ b))) + 1
      ≡ count (both (split_lines (a ++ (x ∷ []))) (split_lines (y ∷ b)))
split_lines-cut a b x y h k =
    rw
      (
        split_lines-lines (a ++ (x ∷ y ∷ b)),
        split_lines-lines (a ++ (x ∷ [])),
        split_lines-lines (y ∷ b),
      )
      (omega (
        arith,
        lines-cut [] a b x y h k,
        length-append (lines [] (a ++ (x ∷ []))) (lines [] (y ∷ b)),
      ))
