-- ===== src/Telegraf.antt =====
-- The text of the metrics for telegraf: src/stats/telegraf/Exporter.cpp and Exporter.h. The property
-- tree of Boost, in which `put` cuts the names of the metrics at their dots, is given.
pub mod Leaves
use iqlogger.Common.{
  ◌+◌, ◌%◌, ℕ, Bool, true, false, Option, none, some, List, [], ◌∷◌, ◌++◌, Bytes, codes, bytes_eq,
  ◌==◌, if◌then◌else◌, map,
}
use iqlogger.Common.Decimal.{to_string}
use iqlogger.Common.Table.{bytes_key, lookup}
use mathlib.Core.Option

mutual
  -- A node has a value and children, which Boost's tree keeps in the order they came.
  pub data Tree : Type 0 where
    node : Bytes → Forest → Tree

  pub data Forest : Type 0 where
    nil : Forest
    child : Bytes → Tree → Forest → Forest

-- The path of a child: behind a dot, if there is a path.
unfoldable pub child_path : Bytes → Bytes → Bytes
child_path [] name = name
child_path (c ∷ cs) name = (c ∷ cs) ++ (codes "." ++ name)

-- `visit_if` with `is_leaf`: the leaves that are visited, with their paths.
unfoldable mutual
  unfolding child_path

  pub visit_if : Tree → Bytes → List (Bytes × Bytes)
  visit_if (node value nil) path = (path, value) ∷ []
  visit_if (node value (child name tree rest)) path = visit_children (child name tree rest) path

  pub visit_children : Forest → Bytes → List (Bytes × Bytes)
  visit_children nil path = []
  visit_children (child name tree rest) path =
      visit_if tree (child_path path name) ++ visit_children rest path

-- `std::replace(p.begin(), p.end(), '.', '_')`.
unfoldable pub replace_dots : Bytes → Bytes
replace_dots [] = []
replace_dots (c ∷ cs) = (if c == b'.' then b'_' else c) ∷ replace_dots cs

-- The visitor at a leaf.
unfoldable pub write_leaf : (Bytes × Bytes) → Bytes
unfolding replace_dots
write_leaf (path, value) = replace_dots path ++ (codes "=" ++ (value ++ codes "i"))

-- The count `i` of the leaves is a `short`: a comma is written unless it is 0.
unfoldable pub write_leaves : ℕ → List (Bytes × Bytes) → Bytes
unfolding write_leaf
write_leaves i [] = []
write_leaves i (leaf ∷ leaves) =
    (if i == 0 then [] else codes ",") ++ (write_leaf leaf ++ write_leaves ((i + 1) % 65536) leaves)

-- A metric that is not there ends its section: `std::out_of_range`.
unfoldable pub section : Option Bytes → Bytes
section none = []
section (some text) = text

unfoldable pub at : Bytes → List (Bytes × ℕ) → Option Bytes
unfolding to_string lookup
at name metrics = Option.map to_string (lookup name metrics)

-- The metrics of the process, under their labels.
unfoldable pub labelled : List Bytes → List (Bytes × ℕ) → Option (List (Bytes × Bytes))
unfolding at Option.bind
labelled [] metrics = some []
labelled (label ∷ labels) metrics =
    Option.bind (at (codes "process." ++ label) metrics)
      (λ value. Option.map (◌∷◌ (label, value)) (labelled labels metrics))

abbrev pub process_labels : List Bytes
process_labels =
    codes "cpu_user_seconds_total"
    ∷ codes "open_fds"
    ∷ codes "cpu_system_seconds_total"
    ∷ codes "resident_memory_bytes"
    ∷ codes "max_fds"
    ∷ codes "threads"
    ∷ []

module _ (measurement time : Bytes) where
  -- The lines of the inputs, or of the outputs: `total` is not one of them.
  unfoldable pub write_children : Bytes → Bytes → Forest → Bytes
  unfolding visit_if write_leaves
  write_children kind total nil = []
  write_children kind total (child name tree rest) =
      let others = write_children kind total rest in
      if bytes_eq name total
      then others
      else measurement
        ++ (kind
            ++ (codes ",name="
                ++ (name
                    ++ (codes " "
                        ++ (write_leaves 0 (visit_if tree [])
                            ++ (codes " " ++ (time ++ codes "\n")))))))
        ++ others

  unfoldable pub line : Bytes → Bytes → Bytes
  line kind fields =
      measurement ++ (kind ++ (codes " " ++ (fields ++ (codes " " ++ (time ++ codes "\n")))))

  unfoldable pub process_section : List (Bytes × ℕ) → Option Bytes
  unfolding labelled line write_leaves
  process_section metrics =
      Option.map (λ fields. line (codes "_process") (write_leaves 0 fields))
        (labelled process_labels metrics)

  unfoldable pub queue_section : Bytes → Bytes → List (Bytes × ℕ) → Option Bytes
  unfolding at line
  queue_section kind name metrics =
      Option.map (λ value. line kind (codes "queue_length=" ++ (value ++ codes "i")))
        (at name metrics)

  -- The heaps of the script engine's threads.
  unfoldable pub write_heaps : List (Bytes × ℕ) → Forest → Option Bytes
  unfolding at line
  write_heaps metrics nil = some []
  write_heaps metrics (child name tree rest) =
      let others = write_heaps metrics rest in
      if bytes_eq name (codes "queue")
      then others
      else Option.bind (at (codes "processor." ++ (name ++ codes ".heap_size")) metrics) (λ value.
        Option.map
          (λ text.
            line (codes "_processor,processor=" ++ name)
              (codes "heap_size=" ++ (value ++ codes "i"))
            ++ text)
          others)

  -- `exportTelegraf` of a program with the script engine, with `get_child` of the tree: `none` is its
  -- exception `ptree_bad_path`, which leaves the function.
  unfoldable pub export_telegraf :
      (get_child : Bytes → Forest → Option Forest) → List (Bytes × ℕ) → Forest → Option Bytes
  unfolding process_section queue_section write_heaps write_children section Option.bind
  export_telegraf get_child metrics tree =
      Option.bind (get_child (codes "processor") tree) (λ processors.
        Option.bind (get_child (codes "inputs") tree) (λ inputs.
          Option.map
            (λ outputs.
              section (process_section metrics)
              ++ (section
                    (queue_section (codes "_processor") (codes "processor.queue.length") metrics)
                  ++ (section (write_heaps metrics processors)
                      ++ (section (
                            queue_section (codes "_main_queue") (codes "main_queue.length") metrics)
                          ++ (write_children (codes "_inputs") (codes "receive_total") inputs
                              ++ write_children (codes "_outputs") (codes "sent_total") outputs)))))
            (get_child (codes "outputs") tree)))
