-- ===== src/Surface/Toggle.antt =====
-- What toggling does to the series of a graph, seen as a set.
use istatd.Prelude.{
  ◌+◌, ◌≤◌, ◌<◌, ◌≡◌, ◌≢◌, arith, true, false, not, List, [], ◌∷◌, Text, text_eq, text_eq_iff,
  text_eq_instance, contains, length, length-append, ltb, if◌then◌else◌,
}
use istatd.Prelude.Object.{IsDistinct, contains-append, IsDistinct-append}
use istatd.Surface.{erase, toggle}

contains-erase :
    (xs : List Text) (x y : Text)
    → IsDistinct xs
    → contains (erase x xs) y ≡ (if text_eq x y then false else contains xs y)
unfolding erase
contains-erase [] x y d = ground arith
contains-erase (z ∷ xs) x y d =
    ground (arith, text_eq_iff x y, text_eq_iff z x, text_eq_iff z y, contains-erase xs x y)

erase-IsDistinct : (xs : List Text) (x : Text) → IsDistinct xs → IsDistinct (erase x xs)
unfolding erase
erase-IsDistinct [] x d = tt
erase-IsDistinct (z ∷ xs) x d =
    ground (arith, text_eq_iff x z, text_eq_iff z x, contains-erase xs x z, erase-IsDistinct xs x)

length-erase : (xs : List Text) (x : Text) → length xs ≤ length (erase x xs) + 1
unfolding erase
length-erase [] x = omega arith
length-erase (z ∷ xs) x = ground (arith, length-erase xs x)

-- Toggling a path turns it on or off and changes no other, except that a path which is the only one
-- stays; the paths stay distinct, and a graph that showed a series shows one afterwards.
pub record Toggles (path : Text) (before after : List Text) : Type 0 where
  pub distinct : IsDistinct after
  pub itself :
      contains after path ≡ (if contains before path then not (ltb 1 (length before)) else true)
  pub others : (other : Text) → other ≢ path → contains after other ≡ contains before other
  pub stays : before ≢ [] → after ≢ []

pub toggle-Toggles :
    (path : Text) (series : List Text)
    → IsDistinct series
    → Toggles path series (toggle path series)
unfolding toggle
toggle-Toggles path series d = record {
  distinct = ground (arith, IsDistinct-append series path, erase-IsDistinct series path);
  itself = ground (
    arith,
    text_eq_iff path path,
    contains-append series path path,
    contains-erase series path path,
  );
  others = λ other h. ground (
    arith,
    text_eq_iff path other,
    contains-append series path other,
    contains-erase series path other,
  );
  stays = λ h. ground (arith, length-erase series path, length-append series (path ∷ []));
}

length_of_two :
    (xs : List Text) (x y : Text)
    → x ≢ y
    → contains xs x ≡ true
    → contains xs y ≡ true
    → 1 < length xs
length_of_two [] x y h p q = cc
length_of_two (z ∷ []) x y h p q = ground (arith, text_eq_iff z x, text_eq_iff z y)
length_of_two (z ∷ w ∷ xs) x y h p q = omega arith

-- Toggling a path twice shows the same paths again, if the graph shows some other path.
pub toggle-toggle :
    (path shown other : Text) (series : List Text)
    → IsDistinct series
    → shown ≢ path
    → contains series shown ≡ true
    → contains (toggle path (toggle path series)) other ≡ contains series other
toggle-toggle path shown other series d h on =
    let once = toggle-Toggles path series d in
    let twice = toggle-Toggles path (toggle path series) once.distinct in
    ground (
      arith,
      text_eq_iff other path,
      once.itself,
      twice.itself,
      once.others other,
      twice.others other,
      once.others shown,
      length_of_two series path shown,
      length_of_two (toggle path series) path shown,
    )
