-- ===== src/Tree/Tests.antt =====
-- Three counters, two of them below one field.
use istatd.Prelude.{◌≡◌, refl, true, List, [], ◌∷◌, ◌==◌, text_eq, some}
use istatd.Prelude.Words.{codes, split}
use istatd.Tree.{
  Counter, children, new_root, parse_counters, as_counter_tree, format_tree_level, put_child,
  del_child, branch, leaf, counter,
}
use istatd.Tree.Leaves.{leaves, count_if}
use istatd.Tree.Compact.{singles, as_counter_tree-singles}
use istatd.Tree.Parse.{as_counter_tree-leaves}

abbrev some_counters : List Counter
some_counters =
    record { name = codes "a.b.c"; type = 0; is_leaf = true }
    ∷ record { name = codes "a.b.d"; type = 1; is_leaf = true }
    ∷ record { name = codes "e.f"; type = 1; is_leaf = true }
    ∷ []

-- The top level shows "a.b" as a branch and "e.f" as a counter.
top_level :
    format_tree_level (children (as_counter_tree some_counters))
    ≡ branch (codes "a.b") ∷ leaf (codes "e.f") (some counter) ∷ []
unfolding format_tree_level as_counter_tree text_eq put_child del_child split
top_level = refl

as_counter_tree-leaves_example :
    count_if (λ x. x.1 == 1) (leaves (children (as_counter_tree some_counters)))
    ≡ count_if (λ x. x.1 == 1) (leaves (children (parse_counters some_counters new_root)))
as_counter_tree-leaves_example = as_counter_tree-leaves some_counters (λ x. x.1 == 1)

as_counter_tree-singles_example : singles (children (as_counter_tree some_counters)) ≡ 0
as_counter_tree-singles_example = as_counter_tree-singles some_counters
