-- ===== src/Tree/Moving.antt =====
-- Collapsing a tree keeps the names and types of its leaves.
use istatd.Prelude.{
  ℕ, ◌+◌, ◌≡◌, ◌≢◌, refl, ap, arith, Bool, none, some, [], ◌∷◌, ◌++◌, Text, text_eq, text_eq_iff,
  text_eq_instance, if◌then◌else◌,
}
use istatd.Prelude.Words.{IsFree}
use istatd.Prelude.Object.{IsDistinct}
use istatd.Tree.{Node, node, Children, nil, child, put_child, del_child, get_child, maybe_move_up}
use istatd.Tree.Leaves.{leaves, leaves_under, count_if, count_if-append, leaves_under-moved}
use istatd.Tree.Heads.{
  head_of, get_child-new_key, head_of-IsFree, head_of-append, append-ne, heads, heads-put_child,
  heads-moved-IsDistinct,
}

module _ (p : Text × ℕ → Bool) where
  count-put_child :
      (key : Text) (n m : Node) (cs : Children)
      → get_child key cs ≡ some m
      → count_if p (leaves (put_child key n cs)) + count_if p (leaves_under key m)
        ≡ count_if p (leaves cs) + count_if p (leaves_under key n)
  unfolding get_child put_child leaves
  count-put_child key n m nil e = cc
  count-put_child key n m (child k o cs) e = ground (
    arith,
    text_eq_iff k key,
    count-put_child key n m cs,
    count_if-append p (leaves_under k o) (leaves cs),
    count_if-append p (leaves_under k n) (leaves cs),
    count_if-append p (leaves_under k o) (leaves (put_child key n cs)),
  )

  count-put_new :
      (key : Text) (n : Node) (cs : Children)
      → get_child key cs ≡ none
      → count_if p (leaves (put_child key n cs))
        ≡ count_if p (leaves cs) + count_if p (leaves_under key n)
  unfolding get_child put_child leaves count_if
  count-put_new key n nil e = ground (arith, count_if-append p (leaves_under key n) [])
  count-put_new key n (child k o cs) e = ground (
    arith,
    count-put_new key n cs,
    count_if-append p (leaves_under k o) (leaves cs),
    count_if-append p (leaves_under k o) (leaves (put_child key n cs)),
  )

  count-del_child :
      (key : Text) (m : Node) (cs : Children)
      → get_child key cs ≡ some m
      → count_if p (leaves (del_child key cs)) + count_if p (leaves_under key m)
        ≡ count_if p (leaves cs)
  unfolding get_child del_child leaves
  count-del_child key m nil e = cc
  count-del_child key m (child k o cs) e = ground (
    arith,
    text_eq_iff k key,
    count-del_child key m cs,
    count_if-append p (leaves_under k o) (leaves cs),
    count_if-append p (leaves_under k o) (leaves (del_child key cs)),
  )

pub get_child-put_child :
    (key k : Text) (n : Node) (cs : Children)
    → get_child k (put_child key n cs) ≡ (if text_eq key k then some n else get_child k cs)
unfolding get_child put_child
get_child-put_child key k n nil = refl
get_child-put_child key k n (child j o cs) =
    ground
      (arith, text_eq_iff j key, text_eq_iff j k, text_eq_iff key k, get_child-put_child key k n cs)

get_child-del_child :
    (key k : Text) (cs : Children) → k ≢ key → get_child k (del_child key cs) ≡ get_child k cs
unfolding get_child del_child
get_child-del_child key k nil h = refl
get_child-del_child key k (child j o cs) h =
    ground (arith, text_eq_iff j key, text_eq_iff j k, get_child-del_child key k cs)

-- One round of `collapse`: the subtree `n` under `key` gives way to `n'`, perhaps renamed.
pub record Moves (key : Text) (n n' : Node) (cs cs' : Children) : Type 0 where
  pub counts :
      (p : Text × ℕ → Bool)
      → count_if p (leaves cs') + count_if p (leaves_under key n)
        ≡ count_if p (leaves cs) + count_if p (leaves_under key n')
  pub distinct : IsDistinct (heads cs')
  pub others : (k : Text) → IsFree b'.' k → k ≢ key → get_child k cs' ≡ get_child k cs

module _ (key : Text) (n : Node) (cs : Children) (free : IsFree b'.' key)
    (here : get_child key cs ≡ some n) (d : IsDistinct (heads cs)) where
  put-Moves : (n' : Node) → Moves key n n' cs (put_child key n' cs)
  put-Moves n' = record {
    counts = λ p. count-put_child p key n' n cs here;
    distinct = rw (heads-put_child key n' n cs here) d;
    others = λ k f ne. ground (arith, get_child-put_child key k n' cs, text_eq_iff key k);
  }

  move-Moves :
      (child_key text text' text'' : Text) (below : Children) (type type' : ℕ)
      → Moves key n
          (node text' (child child_key (node text'' below type) nil) type')
          cs
          (del_child key (put_child (key ++ b'.' ∷ child_key) (node text below type) cs))
  move-Moves child_key text text' text'' below type type' =
      let new_key = key ++ b'.' ∷ child_key in
      let m = node text below type in
      let own = head_of-IsFree key free in
      let same = head_of-append key child_key free in
      let ne = append-ne key child_key in
      let untaken = get_child-new_key key new_key m own same ne cs n here d in
      let still : get_child key (put_child new_key m cs) ≡ some n =
        ground (arith, get_child-put_child new_key key m cs, text_eq_iff new_key key) in
      record {
        counts = λ p. omega (
          arith,
          count-put_new p new_key m cs untaken,
          count-del_child p key n (put_child new_key m cs) still,
          ap (count_if p) (leaves_under-moved key child_key text text' text'' below type type'),
        );
        distinct = heads-moved-IsDistinct key new_key m own same ne cs n here d;
        others = λ k f other. ground (
          arith,
          get_child-del_child key k (put_child new_key m cs),
          get_child-put_child new_key k m cs,
          text_eq_iff new_key k,
          ap head_of {x = new_key} {y = k},
          head_of-IsFree k,
        );
      }

  pub maybe_move_up-Moves : (n' : Node) → Moves key n n' cs (maybe_move_up key n' cs)
  unfolding maybe_move_up
  maybe_move_up-Moves (node text' (child child_key (node text'' below type) nil) type') =
      move-Moves child_key (key ++ b'.' ∷ child_key) text' text'' below type type'
  maybe_move_up-Moves (node text' (child k (node _ _ _) (child k' m' rest)) type') = put-Moves _
  maybe_move_up-Moves (node text' nil type') = put-Moves _
