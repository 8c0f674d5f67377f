-- ===== src/Tree/Parse.antt =====
-- The tree that the names give before it is collapsed.
use istatd.Prelude.{
  ℕ, ◌≡◌, arith, Bool, true, List, [], ◌∷◌, Text, text_eq, text_eq_iff, text_eq_instance, contains,
  if◌then◌else◌, All,
}
use istatd.Prelude.Words.{IsFree, split, split-All}
use istatd.Prelude.Object.{IsDistinct}
use istatd.Tree.{
  Counter, Node, node, Children, nil, child, children, update_child, insert, new_node, new_root,
  parse_counters, as_counter_tree,
}
use istatd.Tree.Leaves.{leaves, count_if}
use istatd.Tree.Heads.{heads, head_of, head_of-IsFree}
use istatd.Tree.Collapse.{IsPlain, ArePlain, leaves-collapse}

module _ (field : Text) (change : Node → Node) (free : IsFree b'.' field)
    (keeps : (n : Node) → IsPlain n → IsPlain (change n)) where
  contains-heads-update_child :
      (cs : Children) (h : Text)
      → contains (heads (update_child field change cs)) h
        ≡ (if text_eq field h then true else contains (heads cs) h)
  unfolding update_child
  contains-heads-update_child nil h = ground (arith, head_of-IsFree field free)
  contains-heads-update_child (child k m cs) h = ground (
    arith,
    text_eq_iff k field,
    text_eq_iff field h,
    text_eq_iff (head_of k) h,
    head_of-IsFree field free,
    contains-heads-update_child cs h,
  )

  update_child-IsDistinct :
      (cs : Children)
      → ArePlain cs
      → IsDistinct (heads cs)
      → IsDistinct (heads (update_child field change cs))
  unfolding update_child ArePlain
  update_child-IsDistinct nil f d = ground arith
  update_child-IsDistinct (child k m cs) f d = ground (
    arith,
    text_eq_iff k field,
    text_eq_iff field k,
    head_of-IsFree k,
    contains-heads-update_child cs k,
    update_child-IsDistinct cs,
  )

  update_child-ArePlain : (cs : Children) → ArePlain cs → ArePlain (update_child field change cs)
  unfolding update_child ArePlain
  update_child-ArePlain nil f = (free, keeps (new_node field) (tt, tt), tt)
  update_child-ArePlain (child k m cs) f = ground (arith, keeps m f.1, update_child-ArePlain cs f.2)

insert-IsPlain :
    (fields : List Text) (type : ℕ) (n : Node)
    → All (IsFree b'.') fields
    → IsPlain n
    → IsPlain (insert fields type n)
unfolding insert ArePlain
insert-IsPlain [] type (node text cs t) f h = h
insert-IsPlain (field ∷ fields) type (node text cs t) f h =
    let keeps = λ (n : Node) (plain : IsPlain n). insert-IsPlain fields type n f.1 plain in
    (
      update_child-IsDistinct field (insert fields type) f.0 keeps cs h.1 h.0,
      update_child-ArePlain field (insert fields type) f.0 keeps cs h.1,
    )

pub parse_counters-IsPlain :
    (counters : List Counter) (n : Node) → IsPlain n → IsPlain (parse_counters counters n)
unfolding parse_counters
parse_counters-IsPlain [] n h = h
parse_counters-IsPlain (counter ∷ counters) n h =
    parse_counters-IsPlain counters (insert (split b'.' counter.name) counter.type n)
      (insert-IsPlain (split b'.' counter.name) counter.type n (split-All b'.' counter.name) h)

-- Collapsing the tree of any counters keeps its leaves: under every test of a full name and a type,
-- as many leaves pass after it as before.
pub as_counter_tree-leaves :
    (counters : List Counter) (p : Text × ℕ → Bool)
    → count_if p (leaves (children (as_counter_tree counters)))
      ≡ count_if p (leaves (children (parse_counters counters new_root)))
unfolding as_counter_tree
as_counter_tree-leaves counters p =
    leaves-collapse (parse_counters counters new_root)
      (parse_counters-IsPlain counters new_root (unfold ArePlain in (tt, tt))) p
