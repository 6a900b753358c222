-- ===== src/Watches/Buffer/Kernel.antt =====
-- The bytes of the kernel's events, and what is read of them.
use iqlogger.Common.{
  ℕ, zero, suc, ◌+◌, ◌/◌, ◌%◌, ◌^◌, ◌≤◌, ◌<◌, ◌≡◌, refl, sym, ap, subst, ◌∙◌, Option, none, some,
  List, [], ◌∷◌, ◌++◌, append_assoc, Bytes, IsText, All, joined, map, length, drop, arith, false,
  ◌⊎◌, inl, inr, ltb, ltb→lt, Bool-cases, length-append, length-drop, drop-append_length,
}
use mathlib.Core.Path.{fun_ext}
use mathlib.Core.Option
use iqlogger.Tail.Monitor.{EventType}
use iqlogger.Watches.Buffer.{
  Event, word, c_string, event_type, with_event, read_events, end_read, run_reads,
}

-- An event as the kernel writes it: the name is followed by `padding` zero bytes.
pub record KernelEvent : Type 0 where
  pub wd : ℕ
  pub mask : ℕ
  pub cookie : ℕ
  pub name : Bytes
  pub padding : ℕ

abbrev zeros : ℕ → Bytes
zeros zero = []
zeros (suc n) = 0 ∷ zeros n

-- Four bytes, the low one first.
abbrev encode_word : ℕ → Bytes
encode_word n = n % 256 ∷ n / 256 % 256 ∷ n / 65_536 % 256 ∷ n / 16_777_216 % 256 ∷ []

abbrev pub encode : KernelEvent → Bytes
encode k =
    encode_word k.wd
    ++ (encode_word k.mask
        ++ (encode_word k.cookie
            ++ (encode_word (length k.name + k.padding) ++ (k.name ++ zeros k.padding))))

-- The numbers fit into four bytes, the name is a text, and it is ended by a zero byte in an event
-- of one of the kinds that are notified.
pub record IsKernel (k : KernelEvent) : Type 0 where
  pub wd_fits : k.wd < 2 ^ 32
  pub mask_fits : k.mask < 2 ^ 32
  pub length_fits : length k.name + k.padding < 2 ^ 32
  pub text : IsText k.name
  pub ended : (event_type k.mask ≡ none) ⊎ (1 ≤ k.padding)

-- What is notified of an event.
abbrev pub notified : KernelEvent → List Event
notified k = with_event (event_type k.mask) k.wd k.name []

drop-shorter : (n : ℕ) (b : Bytes) → 16 ≤ length b → length (drop (16 + n) b) < length b
drop-shorter n b h = omega (arith, length-drop (16 + n) b)

Ends : Option (List Event × Bytes) → Type 0
Ends o = (q : List Event × Bytes) × (o ≡ some q) × (length q.1 < 16)

Ends-map :
    (f : List Event × Bytes → List Event) (o : Option (List Event × Bytes))
    → Ends o
    → Ends (Option.map (λ (q : List Event × Bytes). (f q, q.1)) o)
unfolding Ends
Ends-map f o (q, e, l) = rw e ((f q, q.1), refl, l)

read_events_enough :
    (fuel : ℕ) (pending : Bytes) → length pending < fuel → Ends (read_events fuel pending)
unfolding read_events Ends
read_events_enough zero pending h = absurd (omega (arith, h))
read_events_enough (suc fuel) pending h = elim (Bool-cases (ltb (length pending) 16)) [
  | inl e ↦ rw e (([], pending), refl, ltb→lt (length pending) 16 e)
  | inr e ↦ rw e (
      Ends-map
        (λ (q : List Event × Bytes).
          with_event (event_type (word (drop 4 pending))) (word pending)
            (c_string (drop 16 pending)) q.0)
        (read_events fuel (drop (16 + word (drop 12 pending)) pending))
        (read_events_enough fuel (drop (16 + word (drop 12 pending)) pending)
          (ground (arith, h, e, drop-shorter (word (drop 12 pending)) pending))))
]

-- Whatever bytes are read, the loop ends, and leaves less than the fixed part of an event pending.
pub end_read_total :
    (pending bytes : Bytes)
    → (q : List Event × Bytes) × (end_read pending bytes ≡ some q) × (length q.1 < 16)
unfolding end_read Ends
end_read_total pending bytes =
    read_events_enough (suc (length (pending ++ bytes))) (pending ++ bytes) (omega arith)

word-encode_word : (n : ℕ) (rest : Bytes) → n < 2 ^ 32 → word (encode_word n ++ rest) ≡ n
unfolding word
word-encode_word n rest h = omega (arith, h)

c_string-zero : (b rest : Bytes) → IsText b → c_string (b ++ (0 ∷ rest)) ≡ b
unfolding c_string
c_string-zero [] rest h = refl
c_string-zero (c ∷ cs) rest h = ground (arith, h.0, c_string-zero cs rest h.1)

c_string-zeros :
    (b : Bytes) (n : ℕ) (rest : Bytes) → IsText b → 1 ≤ n → c_string ((b ++ zeros n) ++ rest) ≡ b
c_string-zeros b zero rest h l = absurd (omega (arith, l))
c_string-zeros b (suc n) rest h l =
    rw (append_assoc b (zeros (suc n)) rest) (c_string-zero b (zeros n ++ rest) h)

length-zeros : (n : ℕ) → length (zeros n) ≡ n
length-zeros zero = refl
length-zeros (suc n) = ap suc (length-zeros n)

with_event-append :
    (t : Option EventType) (wd : ℕ) (name : Bytes) (rest : List Event)
    → with_event t wd name rest ≡ with_event t wd name [] ++ rest
unfolding with_event
with_event-append none wd name rest = refl
with_event-append (some t) wd name rest = refl

read_step :
    (fuel : ℕ) (pending rest : Bytes) (k : KernelEvent)
    → ltb (length pending) 16 ≡ false
    → ((q : List Event)
        → with_event
            (event_type (word (drop 4 pending)))
            (word pending)
            (c_string (drop 16 pending))
            q
          ≡ notified k ++ q)
    → drop (16 + word (drop 12 pending)) pending ≡ rest
    → read_events (suc fuel) pending
      ≡ Option.map (λ (q : List Event × Bytes). (notified k ++ q.0, q.1)) (read_events fuel rest)
unfolding read_events
read_step fuel pending rest k b e d =
    rw (b, d)
      (ap (λ (f : List Event × Bytes → List Event × Bytes). Option.map f (read_events fuel rest))
        (fun_ext λ q. ap (λ (es : List Event). (es, q.1)) (e q.0)))

length-encode : (k : KernelEvent) → length (encode k) ≡ 16 + (length k.name + k.padding)
length-encode k = omega (arith, length-append k.name (zeros k.padding), length-zeros k.padding)

drop-encode :
    (k : KernelEvent) (rest : Bytes)
    → drop (16 + (length k.name + k.padding)) (encode k ++ rest) ≡ rest
drop-encode k rest =
    subst (λ (n : ℕ). drop n (encode k ++ rest) ≡ rest) (length-encode k)
      (drop-append_length (encode k) rest)

with_event-encode :
    (k : KernelEvent) (rest : Bytes) (q : List Event)
    → IsKernel k
    → with_event
        (event_type (word (drop 4 (encode k ++ rest))))
        (word (encode k ++ rest))
        (c_string (drop 16 (encode k ++ rest)))
        q
      ≡ notified k ++ q
with_event-encode k rest q h =
    rw
      (
        word-encode_word k.mask (drop 8 (encode k ++ rest)) h.mask_fits,
        word-encode_word k.wd (drop 4 (encode k ++ rest)) h.wd_fits,
      )
      (elim h.ended [
        | inl e ↦ rw e (unfold with_event in refl)
        | inr l ↦ rw (c_string-zeros k.name k.padding rest h.text l) (with_event-append _ _ _ q)
      ])

-- One event at the front of the buffer.
read_events-encode :
    (fuel : ℕ) (k : KernelEvent) (rest : Bytes)
    → IsKernel k
    → read_events (suc fuel) (encode k ++ rest)
      ≡ Option.map (λ (q : List Event × Bytes). (notified k ++ q.0, q.1)) (read_events fuel rest)
read_events-encode fuel k rest h =
    read_step fuel (encode k ++ rest) rest k (ground arith) (λ q. with_event-encode k rest q h)
      (rw (word-encode_word (length k.name + k.padding) (drop 16 (encode k ++ rest)) h.length_fits)
        (drop-encode k rest))

-- What the kernel writes in one read: whole events.
read_events-kernel :
    (ks : List KernelEvent) (fuel : ℕ)
    → All IsKernel ks
    → length (joined (map encode ks)) < fuel
    → read_events fuel (joined (map encode ks)) ≡ some (joined (map notified ks), [])
read_events-kernel ks zero h l = absurd (omega (arith, l))
read_events-kernel [] (suc fuel) h l = unfold read_events in refl
read_events-kernel (k ∷ ks) (suc fuel) h l =
    read_events-encode fuel k (joined (map encode ks)) h.0
    ∙ rw
        (read_events-kernel ks fuel h.1
          (omega (arith, l, length-append (encode k) (joined (map encode ks)), length-encode k)))
        refl

joined-map-notified :
    (ks ls : List KernelEvent)
    → joined (map notified (ks ++ ls)) ≡ joined (map notified ks) ++ joined (map notified ls)
joined-map-notified [] ls = refl
joined-map-notified (k ∷ ks) ls =
    ap (◌++◌ (notified k)) (joined-map-notified ks ls)
    ∙ sym (append_assoc (notified k) (joined (map notified ks)) (joined (map notified ls)))

-- Whatever the kernel writes in whole events, one or more in each read: exactly the events of the
-- kinds that are notified are read, in their order, with their descriptors and names, and no bytes
-- stay pending; the events must fit their fields, and one that is notified has a name that a zero
-- byte ends.
pub run_reads-kernel :
    (reads : List (List KernelEvent))
    → All (All IsKernel) reads
    → run_reads [] (map (λ ks. joined (map encode ks)) reads)
      ≡ some (joined (map notified (joined reads)), [])
unfolding run_reads end_read Option.bind
run_reads-kernel [] h = refl
run_reads-kernel (ks ∷ reads) h =
    rw
      (
        read_events-kernel ks (suc (length (joined (map encode ks)))) h.0 (omega arith),
        run_reads-kernel reads h.1,
      )
      (ap (λ (es : List Event). some (es, [])) (sym (joined-map-notified ks (joined reads))))
