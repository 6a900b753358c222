-- ===== src/Udp/Reassembly/Entries.antt =====
-- The entries of the table, whatever chunks arrive.
use iqlogger.Common.{
  none, some, ℕ, zero, suc, ◌+◌, ◌≤◌, ◌<◌, ◌≡◌, ◌≢◌, refl, subst, true, false, List, [], ◌∷◌, ◌++◌,
  Bytes, ltb, leb, ◌==◌, length, arith, ◌⊎◌, inl, inr, Option-cases, Bool-cases,
}
use iqlogger.Common.Table.{
  bytes_key, lookup, Values, lookup-Values, assign-Values, insert-Values, erase-Values,
  lookup-assign_ne, lookup-erase_ne, lookup-insert_ne, lookup-assign_self, lookup-erase_self,
  lookup-insert_new,
}
use iqlogger.Udp.Chunk.{GelfChunk}
use iqlogger.Udp.Reassembly.{
  Record, ChunkedMessage, Reassembler, max_chunks, set_chunk, total_message, enqueue_message,
  add_chunk, new_message, process_chunk,
}

module _ {E : Type 0} where
  -- The numbers ascend from `lo` on, and stay below `hi`.
  abbrev pub Ascending : ℕ → ℕ → List (ℕ × GelfChunk E) → Type 0
  Ascending lo hi [] = lo ≤ hi
  Ascending lo hi ((i, c) ∷ m) = (lo ≤ i) × (i < hi) × Ascending (suc i) hi m

  -- The numbers are `lo`, `lo + 1`, …
  abbrev pub Consecutive : ℕ → List (ℕ × GelfChunk E) → Type 0
  Consecutive lo [] = Unit
  Consecutive lo ((i, c) ∷ m) = (i ≡ lo) × Consecutive (suc lo) m

  -- An entry of the table: some chunks, in order, with numbers below the count, which is 128 at
  -- most; and not all of them, unless the message has one chunk.
  pub record IsEntry (message : ChunkedMessage E) : Type 0 where
    pub some_chunk : message.chunks ≢ []
    pub ascending : Ascending 0 message.size message.chunks
    pub bounded : message.size ≤ max_chunks
    pub waits : (length message.chunks < message.size) ⊎ (message.size ≡ 1)

  abbrev pub IsTable : Reassembler E → Type 0
  IsTable s = Values IsEntry s.chunk_map

  set_chunk-Ascending :
      (i : ℕ) (c : GelfChunk E) (lo hi : ℕ) (m : List (ℕ × GelfChunk E))
      → lo ≤ i
      → i < hi
      → Ascending lo hi m
      → Ascending lo hi (set_chunk i c m)
  unfolding set_chunk
  set_chunk-Ascending i c lo hi [] l h w = (l, h, omega arith)
  set_chunk-Ascending i c lo hi ((j, d) ∷ m) l h w =
      ground (arith, set_chunk-Ascending i c (suc j) hi m)

  Ascending-length :
      (lo hi : ℕ) (m : List (ℕ × GelfChunk E)) → Ascending lo hi m → lo + length m ≤ hi
  Ascending-length lo hi [] w = omega arith
  Ascending-length lo hi ((i, c) ∷ m) w = omega (arith, Ascending-length (suc i) hi m w.2)

  Ascending-Consecutive :
      (lo hi : ℕ) (m : List (ℕ × GelfChunk E))
      → Ascending lo hi m
      → lo + length m ≡ hi
      → Consecutive lo m
  Ascending-Consecutive lo hi [] w e = tt
  Ascending-Consecutive lo hi ((i, c) ∷ m) w e =
      let first : i ≡ lo = omega (arith, Ascending-length (suc i) hi m w.2) in
      (
        first,
        subst (λ t. Consecutive (suc t) m) first
            (Ascending-Consecutive (suc i) hi m w.2 (omega arith)),
      )

  set_chunk-ne-nil : (i : ℕ) (c : GelfChunk E) (m : List (ℕ × GelfChunk E)) → set_chunk i c m ≢ []
  unfolding set_chunk
  set_chunk-ne-nil i c [] = ground arith
  set_chunk-ne-nil i c ((j, d) ∷ m) = ground arith

  -- The chunks of a message with one more.
  abbrev pub with_chunk : GelfChunk E → ChunkedMessage E → List (ℕ × GelfChunk E)
  with_chunk c message = set_chunk c.sequence_number c message.chunks

  -- What a chunk does: it is refused; or it opens an entry; or its count is not that of the entry; or
  -- it joins the entry's chunks, which are fewer than the count; or it completes them: they are the
  -- chunks 0, 1, … without a gap, as many as the count says, the entry is removed, and a record with
  -- their contents is added.
  pub data Adds (now : ℕ) (c : GelfChunk E) (s t : Reassembler E) : Type 0 where
    refused :
        (max_chunks < c.sequence_count) ⊎ (c.sequence_count ≤ c.sequence_number)
        → t ≡ s
        → Adds now c s t
    opened :
        lookup c.message_id s.chunk_map ≡ none
        → lookup c.message_id t.chunk_map
          ≡ some
              (record { chunks = (c.sequence_number, c) ∷ []; size = c.sequence_count; time = now })
        → t.enqueued ≡ s.enqueued
        → Adds now c s t
    differs :
        (message : ChunkedMessage E)
        → lookup c.message_id s.chunk_map ≡ some message
        → message.size ≢ c.sequence_count
        → t ≡ s
        → Adds now c s t
    joined :
        (message : ChunkedMessage E)
        → lookup c.message_id s.chunk_map ≡ some message
        → length (with_chunk c message) < c.sequence_count
        → lookup c.message_id t.chunk_map ≡ some (record message { chunks = with_chunk c message })
        → t.enqueued ≡ s.enqueued
        → Adds now c s t
    complete :
        (message : ChunkedMessage E) (source : E)
        → lookup c.message_id s.chunk_map ≡ some message
        → Consecutive 0 (with_chunk c message)
        → length (with_chunk c message) ≡ c.sequence_count
        → lookup c.message_id t.chunk_map ≡ none
        → t.enqueued
          ≡ s.enqueued
            ++ (record { content = total_message (with_chunk c message); source = source } ∷ [])
        → Adds now c s t

  new_message-IsTable :
      (now : ℕ) (c : GelfChunk E) (s : Reassembler E)
      → c.sequence_count ≤ max_chunks
      → c.sequence_number < c.sequence_count
      → IsTable s
      → IsTable (new_message now c s)
  unfolding new_message set_chunk
  new_message-IsTable now c s h k t =
      insert-Values IsEntry _ _ s.chunk_map
        (record {
          some_chunk = λ e. cc;
          ascending = (omega arith, k, k);
          bounded = h;
          waits = small c.sequence_count (omega arith);
        })
        t
    where
      small : (n : ℕ) → 0 < n → (1 < n) ⊎ (n ≡ 1)
      small zero p = absurd (omega arith)
      small (suc zero) p = inr refl
      small (suc (suc n)) p = inl (omega arith)

  enqueue_message-some :
      (m : List (ℕ × GelfChunk E)) (text : Bytes) (sent : List (Record E))
      → m ≢ []
      → (source : E) × (enqueue_message m text sent
          ≡ sent ++ (record { content = text; source = source } ∷ []))
  unfolding enqueue_message
  enqueue_message-some [] text sent h = absurd (h refl)
  enqueue_message-some ((i, c) ∷ m) text sent h = (c.source, refl)

  full_message :
      (now : ℕ) (c : GelfChunk E) (message : ChunkedMessage E) (s : Reassembler E)
      → lookup c.message_id s.chunk_map ≡ some message
      → (message.size == c.sequence_count) ≡ true
      → c.sequence_number < c.sequence_count
      → IsEntry message
      → (length (with_chunk c message) == message.size) ≡ true
      → Adds now c s (add_chunk c message s)
  unfolding add_chunk
  full_message now c message s found same k e full =
      let chunks = with_chunk c message in
      let order =
        set_chunk-Ascending c.sequence_number c 0 message.size message.chunks (omega arith)
          (ground arith) e.ascending in
      let (source, sent) =
        enqueue_message-some chunks (total_message chunks) s.enqueued
          (set_chunk-ne-nil c.sequence_number c message.chunks) in
      rw (same, full)
        (complete message source found
          (Ascending-Consecutive 0 message.size chunks order (ground arith)) (ground arith)
          (lookup-erase_self c.message_id s.chunk_map) sent)

  partial_message :
      (c : GelfChunk E) (message : ChunkedMessage E)
      → (message.size == c.sequence_count) ≡ true
      → c.sequence_number < c.sequence_count
      → IsEntry message
      → (length (set_chunk c.sequence_number c message.chunks) == message.size) ≡ false
      → IsEntry (record message { chunks = set_chunk c.sequence_number c message.chunks })
  partial_message c message same k e part =
      let chunks = set_chunk c.sequence_number c message.chunks in
      let order =
        set_chunk-Ascending c.sequence_number c 0 message.size message.chunks (omega arith)
          (ground arith) e.ascending in
      record {
        some_chunk = set_chunk-ne-nil c.sequence_number c message.chunks;
        ascending = order;
        bounded = e.bounded;
        waits = inl (ground (arith, Ascending-length 0 message.size chunks order));
      }

  joined_message :
      (now : ℕ) (c : GelfChunk E) (message : ChunkedMessage E) (s : Reassembler E)
      → lookup c.message_id s.chunk_map ≡ some message
      → (message.size == c.sequence_count) ≡ true
      → IsEntry (record message { chunks = with_chunk c message })
      → (length (with_chunk c message) == message.size) ≡ false
      → Adds now c s (add_chunk c message s)
  unfolding add_chunk
  joined_message now c message s found same e part =
      rw (same, part)
        (joined message found
          (ground (arith, Ascending-length 0 message.size (with_chunk c message) e.ascending))
          (lookup-assign_self c.message_id _ s.chunk_map) refl)

  add_chunk-IsTable :
      (now : ℕ) (c : GelfChunk E) (message : ChunkedMessage E) (s : Reassembler E)
      → lookup c.message_id s.chunk_map ≡ some message
      → c.sequence_number < c.sequence_count
      → IsEntry message
      → IsTable s
      → IsTable (add_chunk c message s) × Adds now c s (add_chunk c message s)
  add_chunk-IsTable now c message s found k e t =
      elim (Bool-cases (message.size == c.sequence_count)) [
        | inr differ ↦ unfold add_chunk in rw differ (t, differs message found (ground arith) refl)
        | inl same ↦ elim (Bool-cases (length (with_chunk c message) == message.size)) [
          | inl full ↦ (
            unfold add_chunk in rw (same, full) (erase-Values IsEntry c.message_id s.chunk_map t),
            full_message now c message s found same k e full,
          )
          | inr part ↦
              let grown = partial_message c message same k e part in
              (
                unfold add_chunk in
                    rw (same, part) (assign-Values IsEntry c.message_id _ s.chunk_map grown t),
                joined_message now c message s found same grown part,
              )
        ]
      ]

  -- Whatever chunk arrives, the table stays well formed: each entry has a chunk, its numbers
  -- ascend below its count, which is 128 at most, and the message is not complete unless its
  -- count is 1. The chunk is refused if its count is above 128 or its number is not below the count;
  -- it opens an entry if its message has none; it is ignored if its count is not that of the entry;
  -- otherwise it joins the chunks of the entry. If these are fewer than the count then, no record is
  -- made; if not, they are the chunks 0, 1, … without a gap, as many as the count says, one record
  -- with their contents in this order is made, and the entry is removed.
  pub process_chunk-IsTable :
      (now : ℕ) (c : GelfChunk E) (s : Reassembler E)
      → IsTable s
      → IsTable (process_chunk now c s) × Adds now c s (process_chunk now c s)
  unfolding process_chunk
  process_chunk-IsTable now c s t = elim (Bool-cases (ltb max_chunks c.sequence_count)) [
    | inl many ↦ rw many (t, refused (inl (ground arith)) refl)
    | inr few ↦ elim (Bool-cases (leb c.sequence_count c.sequence_number)) [
      | inl beyond ↦ rw (few, beyond) (t, refused (inr (ground arith)) refl)
      | inr inside ↦ elim (Option-cases (lookup c.message_id s.chunk_map)) [
        | inl e ↦
            rw (few, inside, e)
              (
                new_message-IsTable now c s (ground arith) (ground arith) t,
                opened e
                    (unfold new_message set_chunk in lookup-insert_new c.message_id _ s.chunk_map e)
                    (unfold new_message in refl),
              )
        | inr (message, e) ↦
            rw (few, inside, e)
              (add_chunk-IsTable now c message s e (ground arith)
                (lookup-Values IsEntry c.message_id message s.chunk_map t e) t)
      ]
    ]
  ]

  add_chunk-others :
      (c : GelfChunk E) (message : ChunkedMessage E) (s : Reassembler E) (j : Bytes)
      → c.message_id ≢ j
      → lookup j (add_chunk c message s).chunk_map ≡ lookup j s.chunk_map
  unfolding add_chunk
  add_chunk-others c message s j h = elim (Bool-cases (message.size == c.sequence_count)) [
    | inr differ ↦ rw differ refl
    | inl same ↦
        elim (Bool-cases (length (set_chunk c.sequence_number c message.chunks) == message.size)) [
          | inl full ↦ rw (same, full) (lookup-erase_ne c.message_id j s.chunk_map h)
          | inr part ↦ rw (same, part) (lookup-assign_ne c.message_id j _ s.chunk_map h)
        ]
  ]

  -- A chunk of one message leaves the entries of all the others as they are.
  pub process_chunk-others :
      (now : ℕ) (c : GelfChunk E) (s : Reassembler E) (j : Bytes)
      → c.message_id ≢ j
      → lookup j (process_chunk now c s).chunk_map ≡ lookup j s.chunk_map
  unfolding process_chunk new_message
  process_chunk-others now c s j h = elim (Bool-cases (ltb max_chunks c.sequence_count)) [
    | inl many ↦ rw many refl
    | inr few ↦ elim (Bool-cases (leb c.sequence_count c.sequence_number)) [
      | inl beyond ↦ rw (few, beyond) refl
      | inr inside ↦ elim (Option-cases (lookup c.message_id s.chunk_map)) [
        | inl e ↦ rw (few, inside, e) (lookup-insert_ne c.message_id j _ s.chunk_map e h)
        | inr (message, e) ↦ rw (few, inside, e) (add_chunk-others c message s j h)
      ]
    ]
  ]
