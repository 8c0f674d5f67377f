-- ===== src/Counters/Tests.antt =====
-- A graph of two counters, one of which is replaced or joined by another.
use istatd.Prelude.{◌≡◌, refl, false, Option, some, List, [], ◌∷◌, Text, text_eq}
use istatd.Prelude.Words.{codes}
use istatd.Counters.{strip, find, expand, replaced, change_each}

abbrev change : Text → Option Text
change = replaced (codes "cpu") (codes "cpu.$1")

abbrev series : List Text
series = codes "cpu" ∷ codes "net" ∷ []

replaced_test :
    replaced (codes "cpu") (codes "<$&$$>") (codes "a.cpu.b") ≡ some (codes "a.<cpu$>.b")
unfolding replaced find strip expand
replaced_test = refl

-- Where the new counter is there already, it is the one that goes.
change_each_test :
    change_each (replaced (codes "cpu") (codes "net")) false series series ≡ codes "cpu" ∷ []
unfolding change_each replaced find strip expand text_eq istatd.Surface.toggle istatd.Surface.erase
change_each_test = refl
