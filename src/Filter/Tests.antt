-- ===== src/Filter/Tests.antt =====
-- The theorems on the search for counters at concrete inputs.
use istatd.Prelude.{
  Bool, true, false, Option, none, some, List, [], ◌∷◌, ◌≡◌, ◌↔◌, refl, Text, text_eq, All, map,
  arith,
}
use istatd.Prelude.Words.{codes, split}
use istatd.Tree.{Counter, as_counter_tree}
use istatd.Filter.{source_of, compile, render}
use istatd.Filter.Regexp.{is_line_end, once, lit, any, read, search_in}
use istatd.Filter.Matching.{IsInLine}
use istatd.Filter.Wildcards.{InOrder}
use istatd.Filter.Shown.{IsAmong, render-InOrder}

abbrev no_regexp : Text → Option (Text → Bool)
no_regexp source = none

abbrev web_cpu : Counter
web_cpu = record { name = codes "cpu.host.web1"; type = 0; is_leaf = true }

abbrev some_names : List Counter
some_names =
    web_cpu
    ∷ record { name = codes "cpu.host"; type = 2; is_leaf = false }
    ∷ record { name = codes "disk.host.db1"; type = 0; is_leaf = true }
    ∷ []

web_cpu-IsInLine : All IsInLine web_cpu.name
unfolding is_line_end
web_cpu-IsInLine = ground arith

render-InOrder_example :
    (kept : List Counter) × (render no_regexp (λ counters. counters) (codes "cpu*web") some_names
      ≡ some (as_counter_tree kept))
    × (IsAmong web_cpu kept ↔ (
        IsAmong web_cpu some_names
        × (web_cpu.is_leaf ≡ true)
        × InOrder (split b'*' (codes "cpu*web")) (codes "cpu.host.web1")))
render-InOrder_example =
    render-InOrder no_regexp (λ counters. counters) (codes "cpu*web") some_names web_cpu
      (ground arith) web_cpu-IsInLine

abbrev tree_sources : List Text
tree_sources = map source_of (codes "*" ∷ codes "" ∷ codes "web" ∷ codes "a*b" ∷ [])

tree_sources_test : tree_sources ≡ codes ".*" ∷ codes ".*.*" ∷ codes ".*web.*" ∷ codes "a.*b" ∷ []
unfolding source_of text_eq split
tree_sources_test = refl

-- A dot that was typed stands for any character.
dot_test :
    compile no_regexp (codes "a.b")
    ≡ some (search_in (once (lit b'a') ∷ once any ∷ once (lit b'b') ∷ []))
unfolding compile read
dot_test = refl
