-- ===== src/Tail/Lines.antt =====
-- Messages that end with a newline: the loop at the end of `processBuffer` of
-- src/inputs/tail/TailMonitor.cpp.
use iqlogger.Common.{
  ℕ, zero, suc, ◌+◌, ◌-◌, ◌≤◌, ◌<◌, ◌≡◌, ◌≢◌, refl, sym, ap, ◌∙◌, true, false, Option, none, some,
  List, [], ◌∷◌, ◌++◌, append-nil, append_assoc, Bytes, ltb, ◌==◌, if◌then◌else◌, length, take,
  drop, length-drop, length-take, arith, inl, inr, Bool-cases, Option-cases,
}
use mathlib.Core.Option

-- The first position of `c`.
unfoldable pub index : ℕ → Bytes → Option ℕ
index c [] = none
index c (x ∷ xs) = if x == c then some 0 else Option.map suc (index c xs)

-- `find_first_of(c, first)`; `none` is `npos`.
unfoldable pub find_first_of : ℕ → ℕ → Bytes → Option ℕ
find_first_of c first buffer = Option.map (◌+◌ first) (index c (drop first buffer))

-- `substr(first, second - first)`, to the end of the buffer if `second` is `npos`.
unfoldable pub substr_to : ℕ → Option ℕ → Bytes → Bytes
substr_to first none buffer = drop first buffer
substr_to first (some second) buffer = take (second - first) (drop first buffer)

-- `first != second`; the position `first` is inside the buffer and so is not `npos`.
unfoldable pub message_at : ℕ → Option ℕ → Bytes → List Bytes
unfolding substr_to
message_at first none buffer = substr_to first none buffer ∷ []
message_at first (some second) buffer =
    if first == second then [] else substr_to first (some second) buffer ∷ []

-- What the loop does behind a message: `rest` is the loop from the position behind `second` on.
unfoldable pub go_on : List Bytes → Option ℕ → (ℕ → Option (List Bytes)) → Option (List Bytes)
go_on messages none rest = some messages
go_on messages (some second) rest = Option.map (◌++◌ messages) (rest (second + 1))

-- The loop from `first` on: the messages that it hands to `processMessage`. `none` is out of
-- fuel.
unfoldable pub split_loop : ℕ → Bytes → ℕ → Option (List Bytes)
unfolding find_first_of go_on
split_loop zero buffer first = none
split_loop (suc fuel) buffer first =
    let second = find_first_of b'\n' first buffer in
    let rest = go_on (message_at first second buffer) second (split_loop fuel buffer) in
    if ltb first (length buffer) then rest else some []

-- `processBuffer` without a pattern; the fuel is enough by `split_loop-lines`.
unfoldable pub split_lines : Bytes → Option (List Bytes)
split_lines buffer = split_loop (suc (length buffer)) buffer 0

-- A message that is not empty.
abbrev pub emit : Bytes → List Bytes → List Bytes
emit [] ms = ms
emit (c ∷ cs) ms = (c ∷ cs) ∷ ms

-- The non-empty pieces of a text between its newlines, `cur` standing in front of it.
abbrev pub lines : Bytes → Bytes → List Bytes
lines cur [] = emit cur []
lines cur (c ∷ cs) = if c == b'\n' then emit cur (lines [] cs) else lines (cur ++ (c ∷ [])) cs

map-suc-none : (o : Option ℕ) → Option.map suc o ≡ none → o ≡ none
map-suc-none none e = refl
map-suc-none (some k) e = cc

map-suc-suc : (o : Option ℕ) (k : ℕ) → Option.map suc o ≡ some (suc k) → o ≡ some k
map-suc-suc none k e = cc
map-suc-suc (some j) k e = cc

map-suc-zero : (o : Option ℕ) → Option.map suc o ≢ some zero
map-suc-zero none e = cc
map-suc-zero (some k) e = cc

-- What the loop does in terms of the position of the next newline.
lines-none : (cur d : Bytes) → index b'\n' d ≡ none → lines cur d ≡ emit (cur ++ d) []
unfolding index
lines-none cur [] e = rw append-nil
lines-none cur (c ∷ cs) e = elim (Bool-cases (c == b'\n')) [
  | inl nl ↦ cc (rw nl at e)
  | inr other ↦ rw other (
      lines-none (cur ++ (c ∷ [])) cs (map-suc-none (index b'\n' cs) (rw other at e))
      ∙ rw append_assoc)
]

lines-some :
    (cur d : Bytes) (k : ℕ)
    → index b'\n' d ≡ some k
    → (lines cur d ≡ emit (cur ++ take k d) (lines [] (drop (suc k) d))) × (k < length d)
unfolding index
lines-some cur [] k e = cc
lines-some cur (c ∷ cs) zero e = elim (Bool-cases (c == b'\n')) [
  | inl nl ↦ (rw (nl, append-nil), omega arith)
  | inr other ↦ absurd (map-suc-zero (index b'\n' cs) (rw other at e))
]
lines-some cur (c ∷ cs) (suc k) e = elim (Bool-cases (c == b'\n')) [
  | inl nl ↦ cc (rw nl at e)
  | inr other ↦
      let (same, inside) =
        lines-some (cur ++ (c ∷ [])) cs k (map-suc-suc (index b'\n' cs) k (rw other at e)) in
      (rw other (same ∙ rw append_assoc), omega arith)
]

drop-add : (n k m : ℕ) (b : Bytes) → m ≡ n + suc k → drop m b ≡ drop (suc k) (drop n b)
drop-add zero k m b e = ap (λ (t : ℕ). drop t b) {y = suc k} (omega arith)
drop-add (suc n) k zero b e = absurd (omega arith)
drop-add (suc n) k (suc m) [] e = refl
drop-add (suc n) k (suc m) (x ∷ xs) e = drop-add n k m xs (omega arith)

pub drop_all : (n : ℕ) (b : Bytes) → length b ≤ n → drop n b ≡ []
drop_all zero [] h = refl
drop_all zero (x ∷ xs) h = absurd (omega arith)
drop_all (suc n) [] h = refl
drop_all (suc n) (x ∷ xs) h = drop_all n xs (omega arith)

emit_some : (m : Bytes) (ms : List Bytes) → 0 < length m → emit m ms ≡ m ∷ ms
emit_some [] ms h = absurd (omega arith)
emit_some (c ∷ cs) ms h = refl

message_at-emit :
    (first k : ℕ) (d buffer : Bytes)
    → d ≡ drop first buffer
    → k < length d
    → message_at first (some (first + k)) buffer ≡ emit (take k d) []
unfolding message_at
message_at-emit first zero d buffer e h =
    let same : (first == first + zero) ≡ true = ground arith in rw same refl
message_at-emit first (suc k) d buffer e h =
    let differ : (first == first + suc k) ≡ false = ground arith in
    let size : first + suc k - first ≡ suc k = omega arith in
    rw (differ, size, ← e)
      (sym (emit_some (take (suc k) d) [] (omega (arith, length-take (suc k) d))))

pub emit-append : (m : Bytes) (ms : List Bytes) → emit m ms ≡ emit m [] ++ ms
emit-append [] ms = refl
emit-append (c ∷ cs) ms = refl

-- With fuel for each byte that is left, the loop ends, and its messages are the non-empty lines
-- of what is left.
pub split_loop-lines :
    (fuel : ℕ) (buffer : Bytes) (first : ℕ)
    → length buffer - first < fuel
    → split_loop fuel buffer first ≡ some (lines [] (drop first buffer))
unfolding split_loop
split_loop-lines zero buffer first h = elim h [ ]
split_loop-lines (suc fuel) buffer first h = elim (Bool-cases (ltb first (length buffer))) [
  | inr end ↦ rw (end, drop_all first buffer (ground arith)) refl
  | inl inside ↦ elim (Option-cases (index b'\n' (drop first buffer))) [
    | inl e ↦
        rw
          (
            inside,
            e,
            lines-none [] (drop first buffer) e,
            emit_some (drop first buffer) [] (ground (arith, length-drop first buffer)),
          )
          (unfold message_at in refl)
    | inr (k, e) ↦
        let (same, below) = lines-some [] (drop first buffer) k e in
        let next : split_loop fuel buffer (first + k + 1)
            ≡ some (lines [] (drop (first + k + 1) buffer)) =
          split_loop-lines fuel buffer (first + k + 1) (ground (arith, length-drop first buffer)) in
        rw
          (
            inside,
            e,
            same,
            message_at-emit first k (drop first buffer) buffer refl below,
            next,
            drop-add first k (first + k + 1) buffer (omega arith),
          )
          (ap some (sym (emit-append (take k (drop first buffer)) _)))
  ]
]

-- The loop always ends, and the messages of a buffer are its lines that are not empty, each
-- without its newline, in their order; the rest behind the last newline is a message too.
pub split_lines-lines : (buffer : Bytes) → split_lines buffer ≡ some (lines [] buffer)
unfolding split_lines
split_lines-lines buffer = split_loop-lines (suc (length buffer)) buffer 0 (omega arith)
