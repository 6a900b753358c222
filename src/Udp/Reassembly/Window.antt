-- ===== src/Udp/Reassembly/Window.antt =====
-- The ordered chunks of one message. The contents and the sources of the chunks of a message are
-- two functions of their numbers.
use iqlogger.Common.{
  ℕ, zero, suc, ◌+◌, ◌≤◌, ◌<◌, ◌≡◌, refl, Bool, false, ◌||◌, List, [], ◌∷◌, ◌++◌, Bytes, ◌==◌,
  length, arith,
}
use iqlogger.Udp.Chunk.{GelfChunk}
use iqlogger.Udp.Reassembly.{Record, set_chunk, total_message, enqueue_message}

-- The contents of the chunks `lo`, `lo + 1`, … of a message, `k` of them, in their order.
abbrev pub total : (ℕ → Bytes) → ℕ → ℕ → Bytes
total content lo zero = []
total content lo (suc k) = content lo ++ total content (suc lo) k

module _ {E : Type 0} (content : ℕ → Bytes) (origin : ℕ → E) where
  -- The chunks in the table ascend from `lo` on, below `hi`, and are parts of the message.
  abbrev pub Within : ℕ → ℕ → List (ℕ × GelfChunk E) → Type 0
  Within lo hi [] = lo ≤ hi
  Within lo hi ((i, c) ∷ m) =
      (lo ≤ i) × (i < hi) × (c.chunk ≡ content i) × (c.source ≡ origin i) × Within (suc i) hi m

  pub set_chunk-Within :
      (i : ℕ) (c : GelfChunk E) (lo hi : ℕ) (m : List (ℕ × GelfChunk E))
      → lo ≤ i
      → i < hi
      → c.chunk ≡ content i
      → c.source ≡ origin i
      → Within lo hi m
      → Within lo hi (set_chunk i c m)
  unfolding set_chunk
  set_chunk-Within i c lo hi [] l h e o w = (l, h, e, o, omega arith)
  set_chunk-Within i c lo hi ((j, d) ∷ m) l h e o w =
      ground (arith, set_chunk-Within i c (suc j) hi m)

  pub Within-length : (lo hi : ℕ) (m : List (ℕ × GelfChunk E)) → Within lo hi m → lo + length m ≤ hi
  Within-length lo hi [] w = omega arith
  Within-length lo hi ((i, c) ∷ m) w = omega (arith, Within-length (suc i) hi m w.4)

  -- With as many chunks as there are numbers, none is missing.
  pub total_message-full :
      (lo hi k : ℕ) (m : List (ℕ × GelfChunk E))
      → hi ≡ lo + k
      → Within lo hi m
      → length m ≡ k
      → total_message m ≡ total content lo k
  unfolding total_message
  total_message-full lo hi zero [] h w e = refl
  total_message-full lo hi (suc k) [] h w e = absurd (omega arith)
  total_message-full lo hi zero ((i, c) ∷ m) h w e = absurd (omega arith)
  total_message-full lo hi (suc k) ((i, c) ∷ m) h w e =
      let first : i ≡ lo = omega (arith, Within-length (suc i) hi m w.4) in
      let rest = total_message-full (suc i) hi k m (omega arith) w.4 (omega arith) in
      cc (w.2, first, rest)

  -- The record then has the source of chunk 0.
  pub enqueue_message-full :
      (hi : ℕ) (m : List (ℕ × GelfChunk E)) (text : Bytes) (sent : List (Record E))
      → 0 < hi
      → Within 0 hi m
      → length m ≡ hi
      → enqueue_message m text sent ≡ sent ++ (record { content = text; source = origin 0 } ∷ [])
  unfolding enqueue_message
  enqueue_message-full hi [] text sent p w e = absurd (omega arith)
  enqueue_message-full hi ((i, c) ∷ m) text sent p w e =
      let first : i ≡ 0 = omega (arith, Within-length (suc i) hi m w.4) in cc (w.3, first)

-- Is there a chunk of this number?
abbrev pub has : {E : Type 0} → ℕ → List (ℕ × GelfChunk E) → Bool
has i [] = false
has i ((j, c) ∷ m) = j == i || has i m

pub has-set_chunk :
    {E : Type 0} (i j : ℕ) (c : GelfChunk E) (m : List (ℕ × GelfChunk E))
    → has j (set_chunk i c m) ≡ (i == j || has j m)
unfolding set_chunk
has-set_chunk i j c [] = refl
has-set_chunk i j c ((l, d) ∷ m) = ground (arith, has-set_chunk i j c m)

pub length-set_chunk :
    {E : Type 0} (i : ℕ) (c : GelfChunk E) (m : List (ℕ × GelfChunk E))
    → has i m ≡ false
    → length (set_chunk i c m) ≡ length m + 1
unfolding set_chunk
length-set_chunk i c [] h = omega arith
length-set_chunk i c ((l, d) ∷ m) h = ground (arith, length-set_chunk i c m)
