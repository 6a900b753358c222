-- ===== src/Pipeline/Export.antt =====
-- What each output gets of the messages of the main queue.
use iqlogger.Common.{
  ◌≡◌, refl, sym, ap, ◌∙◌, some, List, [], ◌∷◌, ◌++◌, append-nil, append_assoc, All, All-parts,
  joined,
}
use mathlib.Core.Option
use iqlogger.Pipeline.{Output, enqueue_imported, import_bulk, fan_out, fan_out_rounds}
use iqlogger.Pipeline.Import.{values, values-append, IsTame, export_all-values}

module _ {M R : Type 0} where
  -- An output after some messages: it has the records of those that it can convert.
  abbrev pub after : List M → Output M R → Output M R
  after ms o = record o { enqueued = o.enqueued ++ values o.convert ms }

  abbrev pub after_all : List M → List (Output M R) → List (Output M R)
  after_all ms [] = []
  after_all ms (o ∷ os) = after ms o ∷ after_all ms os

  -- No output throws an exception of the standard library for one of the messages.
  abbrev pub AreTame : List M → List (Output M R) → Type 0
  AreTame ms os = All (λ o. All (IsTame o.convert) ms) os

  enqueue_imported-after :
      (o : Output M R) (rs : List R)
      → enqueue_imported o rs ≡ record o { enqueued = o.enqueued ++ rs }
  unfolding enqueue_imported
  enqueue_imported-after o [] =
      ap (λ (x : List R). record o { enqueued = x }) (sym (append-nil o.enqueued))
  enqueue_imported-after o (r ∷ rs) = refl

  fan_out-after :
      (ms : List M) (os : List (Output M R))
      → AreTame ms os
      → fan_out ms os ≡ some (after_all ms os)
  unfolding fan_out import_bulk Option.bind
  fan_out-after ms [] h = refl
  fan_out-after ms (o ∷ os) h =
      rw (export_all-values o.convert ms h.0, fan_out-after ms os h.1)
        (ap (λ (p : Output M R). some (p ∷ after_all ms os))
          (enqueue_imported-after o (values o.convert ms)))

  after_all-append :
      (ms ns : List M) (os : List (Output M R))
      → after_all ns (after_all ms os) ≡ after_all (ms ++ ns) os
  after_all-append ms ns [] = refl
  after_all-append ms ns (o ∷ os) =
      rw
        (
          values-append o.convert ms ns,
          append_assoc o.enqueued (values o.convert ms) (values o.convert ns),
          after_all-append ms ns os,
        )
        refl

  after_all-nil : (os : List (Output M R)) → after_all [] os ≡ os
  after_all-nil [] = refl
  after_all-nil (o ∷ os) = rw (append-nil o.enqueued, after_all-nil os) refl

  AreTame-after_all :
      (ms ns : List M) (os : List (Output M R)) → AreTame ns os → AreTame ns (after_all ms os)
  AreTame-after_all ms ns [] h = tt
  AreTame-after_all ms ns (o ∷ os) h = (h.0, AreTame-after_all ms ns os h.1)

  AreTame-split :
      (ms ns : List M) (os : List (Output M R))
      → AreTame (ms ++ ns) os
      → AreTame ms os × AreTame ns os
  AreTame-split ms ns [] h = (tt, tt)
  AreTame-split ms ns (o ∷ os) h =
      let (m, n) = All-parts (IsTame o.convert) ms ns h.0 in
      let (ms_tame, ns_tame) = AreTame-split ms ns os h.1 in ((m, ms_tame), (n, ns_tame))

  -- However the messages of the main queue are cut into bulks, if no conversion throws an exception
  -- of the standard library: every output gets the records of all messages that it can convert, in
  -- their order, whatever the other outputs make of them.
  pub fan_out_rounds-after :
      (bulks : List (List M)) (os : List (Output M R))
      → AreTame (joined bulks) os
      → fan_out_rounds bulks os ≡ some (after_all (joined bulks) os)
  unfolding fan_out_rounds Option.bind
  fan_out_rounds-after [] os h = ap (λ (x : List (Output M R)). some x) (sym (after_all-nil os))
  fan_out_rounds-after (bulk ∷ bulks) os h =
      let (first, others) = AreTame-split bulk (joined bulks) os h in
      rw (fan_out-after bulk os first) (
        fan_out_rounds-after bulks (after_all bulk os)
          (AreTame-after_all bulk (joined bulks) os others)
        ∙ ap (λ (x : List (Output M R)). some x) (after_all-append bulk (joined bulks) os))
