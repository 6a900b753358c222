-- ===== src/Tests/TelegrafText.antt =====
-- The metrics of one input and of one output.
use iqlogger.Common.{
  Option, none, if◌then◌else◌, ◌≢◌, ℕ, ◌≡◌, refl, Bool, true, not, ◌&&◌, ◌==◌, All, some, [], ◌∷◌,
  ◌++◌, Bytes, codes, bytes_eq, arith,
}
use iqlogger.Common.Table.{bytes_key}
use iqlogger.Telegraf.{Tree, node, Forest, nil, child, visit_if, write_leaves, export_telegraf}
use iqlogger.Telegraf.Leaves.{IsName, AreNamed, write_leaves-visit_if, leaves}

abbrev leaf : Bytes → Tree
leaf value = node value nil

abbrev input : Tree
input = node [] (
    child (codes "queue") (node [] (child (codes "length") (leaf (codes "3")) nil))
      (child (codes "receive_total") (leaf (codes "8")) nil))

abbrev no_dot : Bytes → Bool
no_dot [] = true
no_dot (c ∷ cs) = not (c == b'.') && no_dot cs

no_dot-All : (b : Bytes) → no_dot b ≡ true → All (λ c. c ≢ b'.') b
no_dot-All [] h = tt
no_dot-All (c ∷ cs) h = (ground arith, no_dot-All cs (ground arith))

no_dot-IsName : (c : ℕ) (cs : Bytes) → no_dot (c ∷ cs) ≡ true → IsName (c ∷ cs)
no_dot-IsName c cs h = ((λ e. cc), no_dot-All (c ∷ cs) h)

input-AreNamed : AreNamed input
unfolding AreNamed
input-AreNamed = (
  no_dot-IsName b'q' (codes "ueue") refl,
  (no_dot-IsName b'l' (codes "ength") refl, tt, tt),
  (no_dot-IsName b'r' (codes "eceive_total") refl, tt, tt),
)

write_leaves-visit_if_example :
    write_leaves 0 (visit_if input []) ≡ codes "queue_length=3i,receive_total=8i"
unfolding leaves
write_leaves-visit_if_example =
    write_leaves-visit_if input input-AreNamed (unfold leaves in omega arith)

abbrev forest : Forest
forest =
    child (codes "inputs")
      (node [] (child (codes "receive_total") (leaf (codes "8")) (child (codes "a") input nil)))
      (child (codes "outputs") (node [] nil) (child (codes "processor") (node [] nil) nil))

-- The child of a name.
abbrev child_of : Bytes → Forest → Option Forest
child_of name nil = none
child_of name (child n (node value children) rest) =
    let found = child_of name rest in if bytes_eq n name then some children else found

export_telegraf_run :
    export_telegraf (codes "m") (codes "9") child_of ((codes "main_queue.length", 5) ∷ []) forest
    ≡ some (
        codes "m_main_queue queue_length=5i 9\n"
        ++ codes "m_inputs,name=a queue_length=3i,receive_total=8i 9\n")
unfolding export_telegraf bytes_eq
export_telegraf_run = refl
