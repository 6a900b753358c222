-- ===== src/Tail/Matches.antt =====
-- Messages that begin at a match of a pattern: the first half of `processBuffer` of
-- src/inputs/tail/TailMonitor.cpp. What `boost::cregex_iterator` yields on a buffer is given, the
-- positions of the matches in their order.
use iqlogger.Common.{
  ℕ, zero, suc, ◌-◌, ◌≤◌, ◌≡◌, refl, sym, ap, ◌∙◌, false, List, [], ◌∷◌, ◌++◌, append-nil,
  append_assoc, Bytes, ◌==◌, if◌then◌else◌, length, take, drop, take-append-drop, arith,
}

-- What `processBuffer` hands to `processMessage`, and `m_buffer` afterwards.
pub record Split : Type 0 where
  pub messages : List Bytes
  pub pending : Bytes

-- The loop `for (; it != end; prev = it, ++it)`: the text between each match and the next.
unfoldable pub between : Bytes → ℕ → List ℕ → List Bytes
between buffer prev [] = []
between buffer prev (p ∷ ps) = take (p - prev) (drop prev buffer) ∷ between buffer p ps

-- `prev` at the end of the loop.
unfoldable pub last_match : ℕ → List ℕ → ℕ
last_match prev [] = prev
last_match prev (p ∷ ps) = last_match p ps

-- The text in front of the first match, behind what is pending.
unfoldable pub first_message : Bytes → Bytes → ℕ → List Bytes
first_message [] buffer p = if p == 0 then [] else take p buffer ∷ []
first_message (c ∷ cs) buffer p = if p == 0 then (c ∷ cs) ∷ [] else ((c ∷ cs) ++ take p buffer) ∷ []

unfoldable pub split_matches : List ℕ → Bytes → Bytes → Split
split_matches [] pending buffer = record { messages = []; pending = pending ++ buffer }
split_matches (p ∷ ps) pending buffer = record {
  messages = first_message pending buffer p ++ between buffer p ps;
  pending = drop (last_match p ps) buffer;
}

-- The positions rise, from `lo` on, and none is behind the end, `hi`.
abbrev pub Rising : ℕ → ℕ → List ℕ → Type 0
Rising lo hi [] = Unit {0}
Rising lo hi (p ∷ ps) = (lo ≤ p) × (p ≤ hi) × Rising p hi ps

abbrev pub concat : List Bytes → Bytes
concat [] = []
concat (m ∷ ms) = m ++ concat ms

pub concat-append : (xs ys : List Bytes) → concat (xs ++ ys) ≡ concat xs ++ concat ys
concat-append [] ys = refl
concat-append (x ∷ xs) ys = rw (concat-append xs ys, append_assoc)

drop-nil : (n : ℕ) → drop {A = ℕ} n [] ≡ []
drop-nil zero = refl
drop-nil (suc n) = refl

pub drop-drop : (a b : ℕ) (d : Bytes) → a ≤ b → drop (b - a) (drop a d) ≡ drop b d
drop-drop zero b d h = ap (λ (t : ℕ). drop t d) {y = b} (omega arith)
drop-drop (suc a) zero d h = absurd (omega arith)
drop-drop (suc a) (suc b) [] h = drop-nil (suc b - suc a)
drop-drop (suc a) (suc b) (x ∷ xs) h =
    ap (λ (t : ℕ). drop t (drop a xs)) {y = b - a} (omega arith) ∙ drop-drop a b xs (omega arith)

between-concat :
    (buffer : Bytes) (prev : ℕ) (ps : List ℕ)
    → Rising prev (length buffer) ps
    → concat (between buffer prev ps) ++ drop (last_match prev ps) buffer ≡ drop prev buffer
unfolding between last_match
between-concat buffer prev [] r = refl
between-concat buffer prev (p ∷ ps) r =
    append_assoc (take (p - prev) (drop prev buffer)) (concat (between buffer p ps)) _
    ∙ ap (◌++◌ (take (p - prev) (drop prev buffer))) (between-concat buffer p ps r.2)
    ∙ ap (◌++◌ (take (p - prev) (drop prev buffer))) (sym (drop-drop prev p buffer r.0))
    ∙ take-append-drop (p - prev) (drop prev buffer)

first_message-concat :
    (pending buffer : Bytes) (p : ℕ)
    → concat (first_message pending buffer p) ++ drop p buffer ≡ pending ++ buffer
unfolding first_message
first_message-concat [] buffer zero = refl
first_message-concat [] buffer (suc p) =
    let later : (suc p == 0) ≡ false = ground arith in
    rw (later, append-nil) (take-append-drop (suc p) buffer)
first_message-concat (c ∷ cs) buffer zero = rw append-nil
first_message-concat (c ∷ cs) buffer (suc p) =
    let later : (suc p == 0) ≡ false = ground arith in
    rw (later, append-nil)
      (ap (◌∷◌ c)
        (append_assoc cs (take (suc p) buffer) _ ∙ ap (◌++◌ cs) (take-append-drop (suc p) buffer)))

-- Whatever the matches of the pattern are, as long as their positions rise and lie in the buffer,
-- no byte is lost, added or moved: the messages followed by what is then pending are what was
-- pending followed by the buffer.
pub split_matches-concat :
    (ps : List ℕ) (pending buffer : Bytes)
    → Rising 0 (length buffer) ps
    → concat (split_matches ps pending buffer).messages ++ (split_matches ps pending buffer).pending
      ≡ pending ++ buffer
unfolding split_matches
split_matches-concat [] pending buffer r = refl
split_matches-concat (p ∷ ps) pending buffer r =
    rw
      (
        concat-append (first_message pending buffer p) (between buffer p ps),
        append_assoc,
        between-concat buffer p ps r.2,
      )
      (first_message-concat pending buffer p)
