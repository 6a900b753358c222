-- ===== src/Telegraf/Leaves.antt =====
-- The fields of an input in the text for telegraf.
use mathlib.Core.List.{map-append}
use iqlogger.Common.{
  ℕ, ◌+◌, ◌%◌, ◌<◌, ◌≤◌, length, false, ◌≡◌, ◌≢◌, refl, sym, ap, ◌∙◌, false, List, [], ◌∷◌, ◌++◌,
  append-nil, append_assoc, Bytes, codes, ◌==◌, if◌then◌else◌, All, All-append, arith, map,
}
use iqlogger.Telegraf.{
  Tree, node, Forest, nil, child, child_path, visit_if, visit_children, replace_dots, write_leaf,
  write_leaves,
}

-- The names on the way to a leaf, joined by a separator.
abbrev pub join_next : Bytes → List Bytes → Bytes
join_next separator [] = []
join_next separator (n ∷ ns) = separator ++ (n ++ join_next separator ns)

abbrev pub join : Bytes → List Bytes → Bytes
join separator [] = []
join separator (n ∷ ns) = n ++ join_next separator ns

-- The leaves of a tree, each with the names on the way to it.
unfoldable mutual
  pub leaves : List Bytes → Tree → List (List Bytes × Bytes)
  leaves names (node value nil) = (names, value) ∷ []
  leaves names (node value (child name tree rest)) = leaves_of names (child name tree rest)

  pub leaves_of : List Bytes → Forest → List (List Bytes × Bytes)
  leaves_of names nil = []
  leaves_of names (child name tree rest) =
      leaves (names ++ (name ∷ [])) tree ++ leaves_of names rest

-- A name between two dots.
abbrev pub IsName : Bytes → Type 0
IsName name = (name ≢ []) × All (λ c. c ≢ b'.') name

unfoldable mutual
  pub AreNamed : Tree → Type 0
  AreNamed (node value children) = AreAllNamed children

  pub AreAllNamed : Forest → Type 0
  AreAllNamed nil = Unit
  AreAllNamed (child name tree rest) = IsName name × AreNamed tree × AreAllNamed rest

-- A leaf as the visitor gets it.
abbrev pub dotted : (List Bytes × Bytes) → Bytes × Bytes
dotted (names, value) = (join (codes ".") names, value)

join_next-append :
    (s : Bytes) (ns : List Bytes) (n : Bytes)
    → join_next s (ns ++ (n ∷ [])) ≡ join_next s ns ++ (s ++ n)
join_next-append s [] n = ap (◌++◌ s) (append-nil n)
join_next-append s (m ∷ ns) n =
    ap (λ (x : Bytes). s ++ (m ++ x)) (join_next-append s ns n)
    ∙ ap (◌++◌ s) (sym (append_assoc m (join_next s ns) (s ++ n)))
    ∙ sym (append_assoc s (m ++ join_next s ns) (s ++ n))

child_path-join :
    (names : List Bytes) (name : Bytes)
    → All IsName names
    → child_path (join (codes ".") names) name ≡ join (codes ".") (names ++ (name ∷ []))
unfolding child_path
child_path-join [] name h = sym (append-nil name)
child_path-join ([] ∷ names) name h = absurd (h.0.0 refl)
child_path-join ((c ∷ cs) ∷ names) name h = ap (◌∷◌ c) (
    append_assoc cs (join_next (codes ".") names) (codes "." ++ name)
    ∙ ap (◌++◌ cs) (sym (join_next-append (codes ".") names name)))

mutual
  unfolding visit_if leaves AreNamed

  visit_if-leaves :
      (tree : Tree) (names : List Bytes)
      → All IsName names
      → AreNamed tree
      → visit_if tree (join (codes ".") names) ≡ map dotted (leaves names tree)
  visit_if-leaves (node value nil) names h k = refl
  visit_if-leaves (node value (child name tree rest)) names h k =
      visit_children-leaves (child name tree rest) names h k

  visit_children-leaves :
      (children : Forest) (names : List Bytes)
      → All IsName names
      → AreAllNamed children
      → visit_children children (join (codes ".") names) ≡ map dotted (leaves_of names children)
  visit_children-leaves nil names h k = refl
  visit_children-leaves (child name tree rest) names h k = rw (child_path-join names name h) (
      rw
        (
          visit_if-leaves tree (names ++ (name ∷ []))
              (All-append IsName names (name ∷ []) h (k.0, tt)) k.1,
          visit_children-leaves rest names h k.2,
        )
        (sym (map-append dotted (leaves (names ++ (name ∷ [])) tree) (leaves_of names rest))))

replace_dots-append : (a b : Bytes) → replace_dots (a ++ b) ≡ replace_dots a ++ replace_dots b
unfolding replace_dots
replace_dots-append [] b = refl
replace_dots-append (c ∷ cs) b = ap (◌∷◌ (if c == b'.' then b'_' else c)) (replace_dots-append cs b)

replace_dots-name : (name : Bytes) → All (λ c. c ≢ b'.') name → replace_dots name ≡ name
unfolding replace_dots
replace_dots-name [] h = refl
replace_dots-name (c ∷ cs) h =
    let other : (c == b'.') ≡ false = ground (arith, h.0) in
    rw (other, replace_dots-name cs h.1) refl

replace_dots-join_next :
    (names : List Bytes)
    → All IsName names
    → replace_dots (join_next (codes ".") names) ≡ join_next (codes "_") names
unfolding replace_dots
replace_dots-join_next [] h = refl
replace_dots-join_next (n ∷ ns) h = ap (◌∷◌ b'_') (
    replace_dots-append n (join_next (codes ".") ns)
    ∙ rw (replace_dots-name n h.0.1, replace_dots-join_next ns h.1) refl)

replace_dots-join :
    (names : List Bytes)
    → All IsName names
    → replace_dots (join (codes ".") names) ≡ join (codes "_") names
replace_dots-join [] h = unfold replace_dots in refl
replace_dots-join (n ∷ ns) h =
    replace_dots-append n (join_next (codes ".") ns)
    ∙ rw (replace_dots-name n h.0.1, replace_dots-join_next ns h.1) refl

mutual
  unfolding leaves AreNamed

  leaves-IsName :
      (tree : Tree) (names : List Bytes)
      → All IsName names
      → AreNamed tree
      → All (λ (l : List Bytes × Bytes). All IsName l.0) (leaves names tree)
  leaves-IsName (node value nil) names h k = (h, tt)
  leaves-IsName (node value (child name tree rest)) names h k =
      leaves_of-IsName (child name tree rest) names h k

  leaves_of-IsName :
      (children : Forest) (names : List Bytes)
      → All IsName names
      → AreAllNamed children
      → All (λ (l : List Bytes × Bytes). All IsName l.0) (leaves_of names children)
  leaves_of-IsName nil names h k = tt
  leaves_of-IsName (child name tree rest) names h k =
      All-append (λ (l : List Bytes × Bytes). All IsName l.0) (leaves (names ++ (name ∷ [])) tree)
        (leaves_of names rest)
        (leaves-IsName tree (names ++ (name ∷ [])) (All-append IsName names (name ∷ []) h (k.0, tt))
          k.1)
        (leaves_of-IsName rest names h k.2)

-- A field of the text.
abbrev pub field : (List Bytes × Bytes) → Bytes
field (names, value) = join (codes "_") names ++ (codes "=" ++ (value ++ codes "i"))

write_leaf-dotted : (l : List Bytes × Bytes) → All IsName l.0 → write_leaf (dotted l) ≡ field l
unfolding write_leaf
write_leaf-dotted (names, value) h =
    ap (λ (x : Bytes). x ++ (codes "=" ++ (value ++ codes "i"))) (replace_dots-join names h)

write_leaves-next :
    (i : ℕ) (ls : List (List Bytes × Bytes))
    → 0 < i
    → i + length ls ≤ 65536
    → All (λ (l : List Bytes × Bytes). All IsName l.0) ls
    → write_leaves i (map dotted ls) ≡ join_next (codes ",") (map field ls)
unfolding write_leaves
write_leaves-next i [] p b h = refl
write_leaves-next i (l ∷ []) p b h =
    let later : (i == 0) ≡ false = ground arith in rw (later, write_leaf-dotted l h.0) refl
write_leaves-next i (l ∷ (m ∷ ls)) p b h =
    let later : (i == 0) ≡ false = ground arith in
    let small : (i + 1) % 65536 ≡ i + 1 = omega arith in
    rw
      (
        later,
        write_leaf-dotted l h.0,
        small,
        write_leaves-next (i + 1) (m ∷ ls) (omega arith) (omega arith) h.1,
      )
      refl

write_leaves-fields :
    (ls : List (List Bytes × Bytes))
    → length ls ≤ 65536
    → All (λ (l : List Bytes × Bytes). All IsName l.0) ls
    → write_leaves 0 (map dotted ls) ≡ join (codes ",") (map field ls)
unfolding write_leaves
write_leaves-fields [] b h = refl
write_leaves-fields (l ∷ ls) b h =
    rw (write_leaf-dotted l h.0, write_leaves-next 1 ls (omega arith) (omega arith) h.1) refl

-- The fields that are written for the metrics of an input are those of the leaves of its tree, each
-- once, in their order and with commas between them: the names on the way to a leaf with underscores
-- between them, and its value. The names are not empty and have no dots, and there are at most
-- 2 ^ 16 leaves.
pub write_leaves-visit_if :
    (tree : Tree)
    → AreNamed tree
    → length (leaves [] tree) ≤ 65536
    → write_leaves 0 (visit_if tree []) ≡ join (codes ",") (map field (leaves [] tree))
write_leaves-visit_if tree h b =
    ap (write_leaves 0) (visit_if-leaves tree [] tt h)
    ∙ write_leaves-fields (leaves [] tree) b (leaves-IsName tree [] tt h)
