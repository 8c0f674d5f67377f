-- ===== src/Tree/Compact.antt =====
-- In a collapsed tree every node branches or is a leaf.
use istatd.Prelude.{
  ℕ, ◌+◌, ◌≡◌, arith, none, some, List, ◌∷◌, ◌++◌, Text, text_eq_iff, text_eq_instance,
  if◌then◌else◌, ◌==◌, contains, false,
}
use istatd.Prelude.Words.{IsFree}
use istatd.Prelude.Object.{IsDistinct}
use istatd.Tree.{
  Counter, Node, node, Children, nil, child, children, size, put_child, del_child, get_child,
  maybe_move_up, collapse, move_each, as_counter_tree, parse_counters, new_root,
}
use istatd.Tree.Heads.{get_child-new_key, head_of-IsFree, head_of-append, append-ne, heads}
use istatd.Tree.Moving.{get_child-put_child, maybe_move_up-Moves}
use istatd.Tree.Collapse.{IsPlain, ArePlain, Present, Present-self, Present-Moves}
use istatd.Tree.Parse.{parse_counters-IsPlain}

-- How many nodes of a subtree have one child.
unfoldable mutual
  unfolding size

  pub singles : Children → ℕ
  singles nil = 0
  singles (child key n cs) = singles_at n + singles cs

  pub singles_at : Node → ℕ
  singles_at (node text cs type) = (if size cs == 1 then 1 else 0) + singles cs

singles-put_child :
    (key : Text) (n m : Node) (cs : Children)
    → get_child key cs ≡ some m
    → singles (put_child key n cs) + singles_at m ≡ singles cs + singles_at n
unfolding get_child put_child singles
singles-put_child key n m nil e = cc
singles-put_child key n m (child k o cs) e =
    ground (arith, text_eq_iff k key, singles-put_child key n m cs)

singles-put_new :
    (key : Text) (n : Node) (cs : Children)
    → get_child key cs ≡ none
    → singles (put_child key n cs) ≡ singles cs + singles_at n
unfolding get_child put_child singles
singles-put_new key n nil e = omega arith
singles-put_new key n (child k o cs) e = ground (arith, singles-put_new key n cs)

singles-del_child :
    (key : Text) (m : Node) (cs : Children)
    → get_child key cs ≡ some m
    → singles (del_child key cs) + singles_at m ≡ singles cs
unfolding get_child del_child singles
singles-del_child key m nil e = cc
singles-del_child key m (child k o cs) e =
    ground (arith, text_eq_iff k key, singles-del_child key m cs)

-- A node with two children is no single one.
singles_at-two :
    (text k k' : Text) (p m : Node) (cs : Children) (type : ℕ)
    → singles_at (node text (child k p (child k' m cs)) type)
      ≡ singles_at p + (singles_at m + singles cs)
unfolding singles size
singles_at-two text k k' p m cs type = grind arith

-- One round of `collapse`, for a subtree without single children.
module _ (key : Text) (n : Node) (cs : Children) (free : IsFree b'.' key)
    (here : get_child key cs ≡ some n) (d : IsDistinct (heads cs)) where
  singles-maybe_move_up :
      (n' : Node)
      → singles (children n') ≡ 0
      → singles (maybe_move_up key n' cs) + singles_at n ≡ singles cs
  unfolding maybe_move_up singles size
  singles-maybe_move_up (node text' nil type') h =
      omega (arith, singles-put_child key (node text' nil type') n cs here)
  singles-maybe_move_up (node text' (child k (node s below t) (child k' m' rest)) type') h = omega (
    arith,
    h,
    singles_at-two text' k k' (node s below t) m' rest type',
    singles-put_child key (node text' (child k (node s below t) (child k' m' rest)) type') n cs
        here,
  )
  singles-maybe_move_up (node text' (child child_key (node text'' below type) nil) type') h =
      let new_key = key ++ b'.' ∷ child_key in
      let m = node new_key below type in
      let untaken =
        get_child-new_key key new_key m (head_of-IsFree key free)
          (head_of-append key child_key free) (append-ne key child_key) cs n here d in
      let still : get_child key (put_child new_key m cs) ≡ some n = ground (
        arith,
        get_child-put_child new_key key m cs,
        text_eq_iff new_key key,
        append-ne key child_key,
      ) in
      omega (
        arith,
        h,
        singles-put_new new_key m cs untaken,
        singles-del_child key n (put_child new_key m cs) still,
      )

-- Every round of the loop takes the single children of one subtree away.
mutual
  unfolding collapse singles ArePlain

  singles-collapse : (n : Node) → IsPlain n → singles (children (collapse n)) ≡ 0
  singles-collapse (node text cs type) h =
      let all = singles-move_each cs cs h.1 h.0 h.0 (Present-self cs h.1 h.0) in omega (arith, all)

  singles-move_each :
      (rest tree : Children)
      → ArePlain rest
      → IsDistinct (heads rest)
      → IsDistinct (heads tree)
      → Present rest tree
      → singles (move_each rest tree) + singles rest ≡ singles tree
  singles-move_each nil tree f dr dt here = omega arith
  singles-move_each (child key n rest) tree f dr dt here =
      let moves = maybe_move_up-Moves key n tree f.0 here.0 dt (collapse n) in
      let tree' = maybe_move_up key (collapse n) tree in
      let first : contains (heads rest) key ≡ false = rw (← head_of-IsFree key f.0) dr.0 in
      let here' = Present-Moves rest key n (collapse n) tree tree' f.2 first moves here.1 in
      omega (
        arith,
        singles-move_each rest tree' f.2 dr.1 moves.distinct here',
        singles-maybe_move_up key n tree f.0 here.0 dt (collapse n) (singles-collapse n f.1),
      )

-- In the tree of any counters no node below the root has exactly one child.
pub as_counter_tree-singles :
    (counters : List Counter) → singles (children (as_counter_tree counters)) ≡ 0
unfolding as_counter_tree
as_counter_tree-singles counters =
    singles-collapse (parse_counters counters new_root)
      (parse_counters-IsPlain counters new_root (unfold ArePlain in (tt, tt)))
