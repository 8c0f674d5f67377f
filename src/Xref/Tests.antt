-- ===== src/Xref/Tests.antt =====
-- Three agents, one of which names no categories.
use istatd.Prelude.{
  arith, ◌≡◌, refl, true, not, ◌&&◌, Option, none, some, List, [], ◌∷◌, Text, text_eq,
}
use istatd.Prelude.Object.{get, put, del, keys}
use istatd.Prelude.Words.{codes, split}
use istatd.Prelude.Digits.{show, show-ne_word}
use istatd.Xref.{compute_xref, related_to, ends_with, sort_array, is_array_index, index_value}
use istatd.Xref.Related.{under, together, under-compute_xref}

abbrev agents : List (Option Text)
agents = some (codes "web,db") ∷ none ∷ some (codes "db,cache") ∷ []

compute_xref_test :
    keys (related_to (codes "db") (compute_xref agents)) ≡ codes "web" ∷ codes "cache" ∷ []
unfolding compute_xref related_to get put del text_eq split sort_array is_array_index index_value
    show
compute_xref_test = refl

-- A category that is a number is at another index after the sort.
moved_test :
    keys (related_to (codes "web") (compute_xref (some (codes "1,web") ∷ []))) ≡ codes "0" ∷ []
unfolding compute_xref related_to get put del text_eq split sort_array is_array_index index_value
    show
moved_test = refl

ends_with_test : ends_with (codes "cpu.db") (codes "db") ≡ true
unfolding ends_with text_eq
ends_with_test = refl

under-compute_xref_example :
    under (compute_xref agents) (codes "web") (codes "cache")
    ≡ (not (text_eq (codes "web") (codes "cache")) && together agents (codes "web") (codes "cache"))
under-compute_xref_example =
    under-compute_xref agents (codes "web") (codes "cache")
      (λ n. show-ne_word n b'c' (codes "ache") (omega arith))
