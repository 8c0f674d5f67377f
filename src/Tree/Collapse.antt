-- ===== src/Tree/Collapse.antt =====
-- The whole of `collapse`.
use istatd.Prelude.{
  ℕ, ◌+◌, ◌<◌, ◌≡◌, ◌≢◌, refl, sym, ap, ◌∙◌, arith, Bool, true, false, some, List, [], ◌∷◌, ◌++◌,
  Text, text_eq_iff, text_eq_instance, contains, if◌then◌else◌,
}
use istatd.Prelude.Words.{IsFree}
use istatd.Prelude.Object.{IsDistinct}
use istatd.Tree.{
  Node, node, Children, nil, child, get_child, maybe_move_up, collapse, move_each, children,
}
use istatd.Tree.Leaves.{leaves, leaves_under, prefix_all, count_if, count_if-append}
use istatd.Tree.Heads.{heads, head_of-IsFree}
use istatd.Tree.Moving.{maybe_move_up-Moves, Moves}

-- The keys of a level, each once and without a dot, as fields are; and so on every level below.
unfoldable mutual
  pub IsPlain : Node → Type 0
  IsPlain (node text cs type) = IsDistinct (heads cs) × ArePlain cs

  pub ArePlain : Children → Type 0
  ArePlain nil = Unit
  ArePlain (child key n cs) = IsFree b'.' key × IsPlain n × ArePlain cs

-- The nodes of a list are still found under their keys.
abbrev pub Present : Children → Children → Type 0
Present nil tree = Unit
Present (child key n rest) tree = (get_child key tree ≡ some n) × Present rest tree

Present-child :
    (rest tree : Children) (key : Text) (n : Node)
    → ArePlain rest
    → contains (heads rest) key ≡ false
    → Present rest tree
    → Present rest (child key n tree)
unfolding get_child ArePlain
Present-child nil tree key n f h p = tt
Present-child (child k m rest) tree key n f h p = (
  ground (arith, text_eq_iff key k, text_eq_iff k key, head_of-IsFree k),
  Present-child rest tree key n f.2 (ground arith) p.1,
)

pub Present-self : (cs : Children) → ArePlain cs → IsDistinct (heads cs) → Present cs cs
unfolding get_child ArePlain
Present-self nil f d = tt
Present-self (child k n cs) f d = (
  ground (arith, text_eq_iff k k),
  Present-child cs cs k n f.2 (ground (arith, head_of-IsFree k)) (Present-self cs f.2 d.1),
)

pub Present-Moves :
    (rest : Children) (key : Text) (n n' : Node) (tree tree' : Children)
    → ArePlain rest
    → contains (heads rest) key ≡ false
    → Moves key n n' tree tree'
    → Present rest tree
    → Present rest tree'
unfolding ArePlain
Present-Moves nil key n n' tree tree' f h moves p = tt
Present-Moves (child k m rest) key n n' tree tree' f h moves p = (
  moves.others k f.0 (ground (arith, text_eq_iff k key, head_of-IsFree k)) ∙ p.0,
  Present-Moves rest key n n' tree tree' f.2 (ground arith) moves p.1,
)

count_if-prefix_all :
    (p : Text × ℕ → Bool) (key : Text) (xs : List (Text × ℕ))
    → count_if p (prefix_all key xs) ≡ count_if (λ x. p (key ++ b'.' ∷ x.0, x.1)) xs
unfolding count_if prefix_all
count_if-prefix_all p key [] = refl
count_if-prefix_all p key ((name, type) ∷ xs) =
    ap (λ k. (if p (key ++ b'.' ∷ name, type) then 1 else 0) + k) (count_if-prefix_all p key xs)

-- Where there are children there are leaves.
mutual
  unfolding leaves count_if

  leaves_under_pos : (n : Node) (key : Text) → 0 < count_if (λ _. true) (leaves_under key n)
  leaves_under_pos (node text nil type) key = omega arith
  leaves_under_pos (node text (child k n cs) type) key =
      rw (count_if-prefix_all (λ _. true) key (leaves (child k n cs)))
        (leaves_pos (child k n cs) (λ e. cc))

  leaves_pos : (cs : Children) → cs ≢ nil → 0 < count_if (λ _. true) (leaves cs)
  leaves_pos nil h = absurd (h refl)
  leaves_pos (child k n cs) h =
      omega
        (arith, count_if-append (λ _. true) (leaves_under k n) (leaves cs), leaves_under_pos n k)

-- Children with the same leaves stand for the same leaves under a key.
leaves_under_congr :
    (key text : Text) (type : ℕ) (cs cs' : Children)
    → ((q : Text × ℕ → Bool) → count_if q (leaves cs') ≡ count_if q (leaves cs))
    → (p : Text × ℕ → Bool)
    → count_if p (leaves_under key (node text cs' type))
      ≡ count_if p (leaves_under key (node text cs type))
unfolding leaves count_if
leaves_under_congr key text type nil nil same p = refl
leaves_under_congr key text type nil (child k n cs) same p =
    absurd (omega (arith, same (λ _. true), leaves_pos (child k n cs) (λ e. cc)))
leaves_under_congr key text type (child k n cs) nil same p =
    absurd (omega (arith, same (λ _. true), leaves_pos (child k n cs) (λ e. cc)))
leaves_under_congr key text type (child k n cs) (child k' n' cs') same p =
    count_if-prefix_all p key (leaves (child k' n' cs'))
    ∙ same (λ x. p (key ++ b'.' ∷ x.0, x.1))
    ∙ sym (count_if-prefix_all p key (leaves (child k n cs)))

mutual
  unfolding collapse ArePlain

  collapse-count :
      (n : Node)
      → IsPlain n
      → (key : Text) (p : Text × ℕ → Bool)
      → count_if p (leaves_under key (collapse n)) ≡ count_if p (leaves_under key n)
  collapse-count (node text cs type) h key p =
      leaves_under_congr key text type cs (move_each cs cs)
        (λ q. move_each-count cs cs h.1 h.0 h.0 (Present-self cs h.1 h.0) q) p

  move_each-count :
      (rest tree : Children)
      → ArePlain rest
      → IsDistinct (heads rest)
      → IsDistinct (heads tree)
      → Present rest tree
      → (p : Text × ℕ → Bool) → count_if p (leaves (move_each rest tree)) ≡ count_if p (leaves tree)
  move_each-count nil tree f dr dt here p = refl
  move_each-count (child key n rest) tree f dr dt here p =
      let moves = maybe_move_up-Moves key n tree f.0 here.0 dt (collapse n) in
      let tree' = maybe_move_up key (collapse n) tree in
      let first : contains (heads rest) key ≡ false = rw (← head_of-IsFree key f.0) dr.0 in
      let here' = Present-Moves rest key n (collapse n) tree tree' f.2 first moves here.1 in
      omega (
        arith,
        move_each-count rest tree' f.2 dr.1 moves.distinct here' p,
        moves.counts p,
        collapse-count n f.1 key p,
      )

-- Collapsing keeps the leaves: under every test of a full name and a type, as many leaves of the
-- collapsed tree pass as of the tree before, if the keys are distinct and without dots.
pub leaves-collapse :
    (n : Node)
    → IsPlain n
    → (p : Text × ℕ → Bool)
    → count_if p (leaves (children (collapse n))) ≡ count_if p (leaves (children n))
unfolding collapse ArePlain
leaves-collapse (node text cs type) h p =
    move_each-count cs cs h.1 h.0 h.0 (Present-self cs h.1 h.0) p
