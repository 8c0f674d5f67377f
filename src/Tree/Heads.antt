-- ===== src/Tree/Heads.antt =====
-- The first fields of the keys of a tree, by which moving a child up finds no key taken.
use istatd.Prelude.{
  ◌≡◌, ◌≢◌, refl, arith, true, false, none, some, List, [], ◌∷◌, ◌++◌, Text, text_eq, text_eq_iff,
  text_eq_instance, contains, if◌then◌else◌, nat_eq, ◌==◌,
}
use istatd.Prelude.Words.{IsFree}
use istatd.Prelude.Object.{IsDistinct}
use istatd.Tree.{Node, Children, nil, child, put_child, del_child, get_child}

-- The text before the first dot.
pub head_of : Text → Text
head_of [] = []
head_of (c ∷ s) = if c == b'.' then [] else c ∷ head_of s

pub head_of-IsFree : (s : Text) → IsFree b'.' s → head_of s ≡ s
unfolding head_of
head_of-IsFree [] h = refl
head_of-IsFree (c ∷ s) h = ground (arith, head_of-IsFree s)

pub head_of-append : (s t : Text) → IsFree b'.' s → head_of (s ++ b'.' ∷ t) ≡ s
unfolding head_of
head_of-append [] t h = refl
head_of-append (c ∷ s) t h = ground (arith, head_of-append s t)

pub append-ne : (s t : Text) → s ++ b'.' ∷ t ≢ s
append-ne [] t = cc
append-ne (c ∷ s) t = λ e. append-ne s t (cc)

abbrev pub heads : Children → List Text
heads nil = []
heads (child key n cs) = head_of key ∷ heads cs

-- A key whose first field is not among the heads is not taken.
pub get_child-heads :
    (key : Text) (cs : Children)
    → contains (heads cs) (head_of key) ≡ false
    → get_child key cs ≡ none
unfolding get_child
get_child-heads key nil h = refl
get_child-heads key (child k m cs) h =
    ground (arith, text_eq_iff k key, text_eq_iff (head_of k) (head_of key), get_child-heads key cs)

heads-get_child :
    (key : Text) (cs : Children) (m : Node)
    → get_child key cs ≡ some m
    → contains (heads cs) (head_of key) ≡ true
unfolding get_child
heads-get_child key nil m h = cc
heads-get_child key (child k n cs) m h =
    ground
      (arith, text_eq_iff k key, text_eq_iff (head_of k) (head_of key), heads-get_child key cs m)

-- Putting a key that is there changes no head.
pub heads-put_child :
    (key : Text) (n m : Node) (cs : Children)
    → get_child key cs ≡ some m
    → heads (put_child key n cs) ≡ heads cs
unfolding get_child put_child
heads-put_child key n m nil h = cc
heads-put_child key n m (child k o cs) h = ground (arith, heads-put_child key n m cs)

-- What is left of the heads when `key` is renamed to `new_key`, which has the same first field.
module _ (key new_key : Text) (n : Node) (free : head_of key ≡ key) (same : head_of new_key ≡ key)
    (ne : new_key ≢ key) where
  contains-heads-put_new :
      (cs : Children) (h : Text)
      → get_child new_key cs ≡ none
      → contains (heads (put_child new_key n cs)) h
        ≡ (if text_eq key h then true else contains (heads cs) h)
  unfolding get_child put_child
  contains-heads-put_new nil h e = ground arith
  contains-heads-put_new (child k m cs) h e = ground (arith, contains-heads-put_new cs h)

  heads-put_new-IsDistinct :
      (cs : Children)
      → get_child new_key cs ≡ none
      → contains (heads cs) key ≡ false
      → IsDistinct (heads cs)
      → IsDistinct (heads (put_child new_key n cs))
  unfolding get_child put_child
  heads-put_new-IsDistinct nil e h d = ground arith
  heads-put_new-IsDistinct (child k m cs) e h d = ground (
    arith,
    text_eq_iff key (head_of k),
    text_eq_iff (head_of k) key,
    contains-heads-put_new cs (head_of k),
    heads-put_new-IsDistinct cs,
  )

  -- The other heads are as before.
  contains-heads-moved :
      (cs : Children) (m : Node) (h : Text)
      → get_child key cs ≡ some m
      → IsDistinct (heads cs)
      → contains (heads (del_child key (put_child new_key n cs))) h ≡ contains (heads cs) h
  unfolding get_child put_child del_child
  contains-heads-moved nil m h e d = cc
  contains-heads-moved (child k o cs) m h e d = ground (
    arith,
    text_eq_iff k new_key,
    text_eq_iff k key,
    text_eq_iff key h,
    text_eq_iff (head_of k) h,
    heads-get_child key cs m,
    get_child-heads new_key cs,
    contains-heads-put_new cs h,
    contains-heads-moved cs m h,
  )

  pub heads-moved-IsDistinct :
      (cs : Children) (m : Node)
      → get_child key cs ≡ some m
      → IsDistinct (heads cs)
      → IsDistinct (heads (del_child key (put_child new_key n cs)))
  unfolding get_child put_child del_child
  heads-moved-IsDistinct nil m e d = cc
  heads-moved-IsDistinct (child k o cs) m e d = ground (
    arith,
    text_eq_iff k new_key,
    text_eq_iff k key,
    heads-get_child key cs m,
    get_child-heads new_key cs,
    heads-put_new-IsDistinct cs,
    contains-heads-moved cs m (head_of k),
    heads-moved-IsDistinct cs m,
  )

  -- The new key is not taken.
  pub get_child-new_key :
      (cs : Children) (m : Node)
      → get_child key cs ≡ some m
      → IsDistinct (heads cs)
      → get_child new_key cs ≡ none
  unfolding get_child
  get_child-new_key nil m e d = refl
  get_child-new_key (child k o cs) m e d = ground (
    arith,
    text_eq_iff k new_key,
    text_eq_iff k key,
    heads-get_child key cs m,
    get_child-heads new_key cs,
    get_child-new_key cs m,
  )
