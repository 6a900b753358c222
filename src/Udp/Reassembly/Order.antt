-- ===== src/Udp/Reassembly/Order.antt =====
-- The chunks of a message may arrive in any order.
use iqlogger.Common.{
  ℕ, suc, ◌+◌, ◌≤◌, ◌≡◌, ◌≢◌, refl, sym, ◌∙◌, false, Option, none, List, [], ◌∷◌, Bytes,
  if◌then◌else◌, length, All, arith, bytes_eq, bytes_eq_iff, bytes_eq_ne, inl, inr, Bool-cases,
}
use iqlogger.Common.Table.{bytes_key, lookup, assign, lookup-assign, lookup-erase, lookup-insert}
use iqlogger.Udp.Chunk.{GelfChunk}
use iqlogger.Udp.Reassembly.{
  ChunkedMessage, Reassembler, max_chunks, set_chunk, new_message, process_chunk, process_bulk,
}
use iqlogger.Udp.Reassembly.Window.{set_chunk-Within, has, has-set_chunk, length-set_chunk}
use iqlogger.Udp.Reassembly.Steps.{
  IsPart, Delivered, Waiting, process_chunk-add, process_chunk-new, add_chunk-more, add_chunk-last,
}

-- No chunk of `cs` has a number that is in the table already.
abbrev pub Fresh : {E : Type 0} → List (ℕ × GelfChunk E) → List (ℕ × GelfChunk E) → Type 0
Fresh m [] = Unit
Fresh m ((now, c) ∷ cs) = (has c.sequence_number m ≡ false) × Fresh m cs

abbrev pub Differ : {E : Type 0} → ℕ → List (ℕ × GelfChunk E) → Type 0
Differ i [] = Unit
Differ i ((now, c) ∷ cs) = (i ≢ c.sequence_number) × Differ i cs

-- The chunks, each with the time at which it is handled, have pairwise different numbers.
abbrev pub Distinct : {E : Type 0} → List (ℕ × GelfChunk E) → Type 0
Distinct [] = Unit
Distinct ((now, c) ∷ cs) = Differ c.sequence_number cs × Distinct cs

Fresh-nil : {E : Type 0} (cs : List (ℕ × GelfChunk E)) → Fresh [] cs
Fresh-nil [] = tt
Fresh-nil ((now, c) ∷ cs) = (refl, Fresh-nil cs)

Fresh-set_chunk :
    {E : Type 0} (i : ℕ) (c : GelfChunk E) (m cs : List (ℕ × GelfChunk E))
    → Differ i cs
    → Fresh m cs
    → Fresh (set_chunk i c m) cs
Fresh-set_chunk i c m [] d f = tt
Fresh-set_chunk i c m ((now, x) ∷ cs) d f =
    (ground (arith, has-set_chunk i x.sequence_number c m, d.0), Fresh-set_chunk i c m cs d.1 f.1)

-- Two tables that agree but for the message agree where it is taken out.
table_through :
    {V : Type 0} (id j : Bytes) (x y : Option V)
    → (j ≢ id → x ≡ y)
    → (if bytes_eq id j then none else x) ≡ (if bytes_eq id j then none else y)
table_through id j x y h = elim (Bool-cases (bytes_eq id j)) [
  | inl same ↦ rw same refl
  | inr differ ↦ rw differ (h (λ e. ground (arith, bytes_eq_iff id j, e)))
]

module _ {E : Type 0} (id : Bytes) (n : ℕ) (content : ℕ → Bytes) (origin : ℕ → E) where
  abbrev pub Parts : List (ℕ × GelfChunk E) → Type 0
  Parts cs = All (λ t. IsPart id n content origin t.1) cs

  -- The entry of the message is replaced by one with a chunk more.
  abbrev pub extended :
      (c : GelfChunk E) (s : Reassembler E) (message : ChunkedMessage E) → Reassembler E
  extended c s message = record s {
    chunk_map =
        assign id (record message { chunks = set_chunk c.sequence_number c message.chunks })
          s.chunk_map;
  }

  pub process_chunk-extended :
      (now : ℕ) (c : GelfChunk E) (s : Reassembler E) (message : ChunkedMessage E)
      → n ≤ max_chunks
      → IsPart id n content origin c
      → Waiting id n content origin s message
      → length (set_chunk c.sequence_number c message.chunks) ≢ n
      → process_chunk now c s ≡ extended c s message
  process_chunk-extended now c s message h p w d =
      process_chunk-add id n content origin now c s message h p w
      ∙ add_chunk-more id n content origin c s message p w d

  pub extended-Waiting :
      (c : GelfChunk E) (s : Reassembler E) (message : ChunkedMessage E)
      → IsPart id n content origin c
      → Waiting id n content origin s message
      → Waiting id n content origin
          (extended c s message)
          (record message { chunks = set_chunk c.sequence_number c message.chunks })
  extended-Waiting c s message p w = record {
    found = lookup-assign id id _ s.chunk_map ∙ rw ((bytes_eq_iff id id).1 refl) refl;
    of_size = w.of_size;
    window =
        set_chunk-Within content origin c.sequence_number c 0 n message.chunks (omega arith)
          p.in_range p.of_content p.of_origin w.window;
  }

  extended-others :
      (c : GelfChunk E) (s : Reassembler E) (message : ChunkedMessage E) (j : Bytes)
      → j ≢ id
      → lookup j (extended c s message).chunk_map ≡ lookup j s.chunk_map
  extended-others c s message j h = ground (
    arith,
    lookup-assign id j (record message { chunks = set_chunk c.sequence_number c message.chunks })
        s.chunk_map,
    bytes_eq_iff id j,
  )

  pub last_Delivered :
      (now : ℕ) (c : GelfChunk E) (s : Reassembler E) (message : ChunkedMessage E)
      → n ≤ max_chunks
      → IsPart id n content origin c
      → Waiting id n content origin s message
      → length (set_chunk c.sequence_number c message.chunks) ≡ n
      → Delivered id n content origin s (process_chunk now c s)
  last_Delivered now c s message h p w e =
      rw
        (
          process_chunk-add id n content origin now c s message h p w,
          add_chunk-last id n content origin c s message (omega (arith, p.in_range)) p w e,
        )
        (record { enqueued = refl; table = λ j. lookup-erase id j s.chunk_map; bad_chunks = refl })

  -- The rest of the chunks completes the message.
  Waiting-Delivered :
      (now : ℕ) (c : GelfChunk E) (cs : List (ℕ × GelfChunk E)) (s : Reassembler E)
      (message : ChunkedMessage E)
      → n ≤ max_chunks
      → Waiting id n content origin s message
      → Parts ((now, c) ∷ cs)
      → Fresh message.chunks ((now, c) ∷ cs)
      → Distinct ((now, c) ∷ cs)
      → length message.chunks + suc (length cs) ≡ n
      → Delivered id n content origin s (process_bulk ((now, c) ∷ cs) s)
  unfolding process_bulk
  Waiting-Delivered now c [] s message h w p f d e =
      last_Delivered now c s message h p.0 w
        (omega (arith, length-set_chunk c.sequence_number c message.chunks f.0))
  Waiting-Delivered now c ((later, x) ∷ cs) s message h w p f d e =
      let grown = length-set_chunk c.sequence_number c message.chunks f.0 in
      let t = extended c s message in
      let step : process_chunk now c s ≡ t =
        process_chunk-extended now c s message h p.0 w (omega arith) in
      let rest =
        Waiting-Delivered later x cs t _ h (extended-Waiting c s message p.0 w) p.1
          (Fresh-set_chunk c.sequence_number c message.chunks ((later, x) ∷ cs) d.0 f.1) d.1
          (omega arith) in
      rw step (record {
        enqueued = rest.enqueued;
        table = λ j. rest.table j ∙ table_through id j _ _ (extended-others c s message j);
        bad_chunks = rest.bad_chunks;
      })

  -- The first chunk opens the message.
  abbrev pub opened : (now : ℕ) (c : GelfChunk E) → ChunkedMessage E
  opened now c = record {
    chunks = set_chunk c.sequence_number c [];
    size = c.sequence_count;
    time = now;
  }

  pub opened-Waiting :
      (now : ℕ) (c : GelfChunk E) (s : Reassembler E)
      → IsPart id n content origin c
      → lookup id s.chunk_map ≡ none
      → Waiting id n content origin (new_message now c s) (opened now c)
  unfolding new_message
  opened-Waiting now c s p e = record {
    found =
        rw p.of_message
          (lookup-insert id id _ s.chunk_map e ∙ rw ((bytes_eq_iff id id).1 refl) refl);
    of_size = p.of_count;
    window =
        set_chunk-Within content origin c.sequence_number c 0 n [] (omega arith) p.in_range
          p.of_content p.of_origin (omega arith);
  }

  opened-others :
      (now : ℕ) (c : GelfChunk E) (s : Reassembler E) (j : Bytes)
      → IsPart id n content origin c
      → lookup id s.chunk_map ≡ none
      → j ≢ id
      → lookup j (new_message now c s).chunk_map ≡ lookup j s.chunk_map
  unfolding new_message
  opened-others now c s j p e h =
      rw p.of_message
        (lookup-insert id j _ s.chunk_map e ∙ rw (bytes_eq_ne id j (λ q. h (sym q))) refl)

  -- The `n` chunks of a message, two or more and at most 128, in whatever order they come and
  -- at whatever times they are handled, make one record, whose content is the concatenation of
  -- their contents in the order of their numbers and whose source is that of chunk 0; then the
  -- message is forgotten, the entries of the other messages are as before, and no chunk is
  -- counted as bad. (The message is not in the table before, and each number comes once.)
  pub process_bulk-Delivered :
      (cs : List (ℕ × GelfChunk E)) (s : Reassembler E)
      → 2 ≤ n
      → n ≤ max_chunks
      → lookup id s.chunk_map ≡ none
      → Parts cs
      → Distinct cs
      → length cs ≡ n
      → Delivered id n content origin s (process_bulk cs s)
  unfolding process_bulk new_message
  process_bulk-Delivered [] s l h e p d len = absurd (omega arith)
  process_bulk-Delivered ((now, c) ∷ []) s l h e p d len = absurd (omega arith)
  process_bulk-Delivered ((now, c) ∷ (later, x) ∷ cs) s l h e p d len =
      let rest =
        Waiting-Delivered later x cs (new_message now c s) (opened now c) h
          (opened-Waiting now c s p.0 e) p.1
          (Fresh-set_chunk c.sequence_number c [] ((later, x) ∷ cs) d.0
            (Fresh-nil ((later, x) ∷ cs)))
          d.1 (omega (arith, length-set_chunk c.sequence_number c [] refl)) in
      rw (process_chunk-new id n content origin now c s h p.0 e) (record {
        enqueued = rest.enqueued;
        table = λ j. rest.table j ∙ table_through id j _ _ (opened-others now c s j p.0 e);
        bad_chunks = rest.bad_chunks;
      })
