-- ===== src/Tests/TailReader.antt =====
-- The reader of one file, on a file of two messages.
use iqlogger.Common.{
  ℕ, ◌+◌, ◌≤◌, ◌≡◌, refl, true, false, none, some, List, [], ◌∷◌, ◌++◌, Bytes, codes, arith, ◌==◌,
  length, Bool-cases, inl, inr, if◌then◌else◌,
}
use iqlogger.Tail.Lines.{split_lines, split_lines-lines}
use iqlogger.Tail.Matches.{Rising, concat, split_matches, split_matches-concat}
use iqlogger.Tail.Reader.{Reader, Stream, process}
use iqlogger.Tail.Growth.{stream_of, IsDone, process-content}

split_lines-lines_example :
    split_lines (b'a' ∷ b'\n' ∷ b'\n' ∷ b'b' ∷ []) ≡ some (codes "a" ∷ codes "b" ∷ [])
split_lines-lines_example = split_lines-lines (b'a' ∷ b'\n' ∷ b'\n' ∷ b'b' ∷ [])

-- Two matches, with a byte pending.
split_matches-concat_example :
    concat (split_matches (1 ∷ 3 ∷ []) (codes "p") (codes "abcd")).messages
      ++ (split_matches (1 ∷ 3 ∷ []) (codes "p") (codes "abcd")).pending
    ≡ codes "pabcd"
split_matches-concat_example =
    split_matches-concat (1 ∷ 3 ∷ []) (codes "p") (codes "abcd") (omega arith)

-- A message starts at each `#`.
abbrev starts : ℕ → Bytes → List ℕ
starts n [] = []
starts n (c ∷ cs) = if c == b'#' then n ∷ starts (n + 1) cs else starts (n + 1) cs

starts-Rising : (n lo hi : ℕ) (b : Bytes) → lo ≤ n → n + length b ≡ hi → Rising lo hi (starts n b)
starts-Rising n lo hi [] h e = tt
starts-Rising n lo hi (c ∷ cs) h e = elim (Bool-cases (c == b'#')) [
  | inl start ↦ rw start (h, omega arith, starts-Rising (n + 1) n hi cs (omega arith) (omega arith))
  | inr text ↦ rw text (starts-Rising (n + 1) lo hi cs (omega arith) (omega arith))
]

abbrev reader : Reader
reader = record {
  filename = codes "/log";
  symlink_path = none;
  is_open = true;
  position = 2;
  buffer = codes "#a";
  follow_only = false;
  save_state = true;
  first_read = false;
  messages = [];
  saved = [];
}

process-content_example :
    (q : Reader) × (process (some (starts 0)) (stream_of (codes "#a#bc")) reader ≡ some q)
    × IsDone (codes "#a#bc") reader q
process-content_example =
    process-content (starts 0) (λ b. starts-Rising 0 0 (length b) b (omega arith) (omega arith))
      (codes "#a#bc") reader refl refl refl refl (omega arith) refl

abbrev empty_file : Stream
empty_file = record { size = some 0; read = λ o k. [] }
