-- ===== src/Tree/Leaves.antt =====
-- The leaves of a tree with their names, and that collapsing keeps them.
use istatd.Prelude.{
  ℕ, ◌+◌, ◌≡◌, refl, arith, Bool, List, [], ◌∷◌, ◌++◌, append_assoc, append-nil, Text,
  text_eq_instance, if◌then◌else◌, nat_eq,
}
use istatd.Tree.{Node, node, Children, nil, child}

unfoldable pub prefix_all : Text → List (Text × ℕ) → List (Text × ℕ)
prefix_all key [] = []
prefix_all key ((name, type) ∷ leaves) = (key ++ b'.' ∷ name, type) ∷ prefix_all key leaves

-- What a key names: itself, or what its children name behind it.
abbrev choose : Children → Text × ℕ → List (Text × ℕ) → List (Text × ℕ)
choose nil own below = own ∷ []
choose (child _ _ _) own below = below

unfoldable mutual
  unfolding prefix_all

  pub leaves_under : Text → Node → List (Text × ℕ)
  leaves_under key (node text cs type) = choose cs (key, type) (prefix_all key (leaves cs))

  -- The full names of the leaves, each with its type.
  pub leaves : Children → List (Text × ℕ)
  leaves nil = []
  leaves (child key n cs) = leaves_under key n ++ leaves cs

-- How many of the leaves pass a test.
unfoldable pub count_if : (Text × ℕ → Bool) → List (Text × ℕ) → ℕ
count_if p [] = 0
count_if p (x ∷ xs) = (if p x then 1 else 0) + count_if p xs

pub count_if-append :
    (p : Text × ℕ → Bool) (xs ys : List (Text × ℕ))
    → count_if p (xs ++ ys) ≡ count_if p xs + count_if p ys
unfolding count_if
count_if-append p [] ys = omega arith
count_if-append p (x ∷ xs) ys = omega (arith, count_if-append p xs ys)

prefix_all-prefix_all :
    (k j : Text) (xs : List (Text × ℕ))
    → prefix_all (k ++ b'.' ∷ j) xs ≡ prefix_all k (prefix_all j xs)
unfolding prefix_all
prefix_all-prefix_all k j [] = refl
prefix_all-prefix_all k j ((name, type) ∷ xs) = rw (append_assoc, prefix_all-prefix_all k j xs)

-- Moving an only child up names the same leaves.
pub leaves_under-moved :
    (key child_key text text' text'' : Text) (cs : Children) (type type' : ℕ)
    → leaves_under (key ++ b'.' ∷ child_key) (node text cs type)
      ≡ leaves_under key (node text' (child child_key (node text'' cs type) nil) type')
unfolding leaves_under prefix_all
leaves_under-moved key child_key text text' text'' nil type type' = refl
leaves_under-moved key child_key text text' text'' (child k n cs) type type' =
    rw (append-nil) (prefix_all-prefix_all key child_key (leaves (child k n cs)))
