-- ===== src/Surface/Tests.antt =====
-- A graph of two series.
use istatd.Prelude.{refl, List, [], ◌∷◌, Text, text_eq, text_eq_instance}
use istatd.Prelude.Words.{codes}
use istatd.Prelude.Object.{IsDistinct}
use istatd.Surface.{toggle}
use istatd.Surface.Toggle.{Toggles, toggle-Toggles}

abbrev two : List Text
two = codes "cpu" ∷ codes "net" ∷ []

two-IsDistinct : IsDistinct two
unfolding text_eq
two-IsDistinct = (refl, (refl, tt))

toggle-Toggles_example : Toggles (codes "cpu") two (toggle (codes "cpu") two)
toggle-Toggles_example = toggle-Toggles (codes "cpu") two two-IsDistinct
