-- ===== src/Progress/Escaping.antt =====
-- What `htmlescape` makes of a text can be read back, and has no markup but line breaks.
use istatd.Prelude.{
  ℕ, zero, suc, ◌≡◌, refl, ap, ◌∙◌, arith, Bool, true, false, ◌&&◌, Option, none, some, List, [],
  ◌∷◌, ◌++◌, Text, ◌==◌, if◌then◌else◌,
}
use istatd.Prelude.Words.{codes}
use istatd.Progress.{htmlescape}

-- One character, as HTML.
unit_of : ℕ → Text
unit_of x =
    if x == b'&'
    then codes "&amp;"
    else (if x == b'<' then codes "&lt;" else (if x == 10 then codes "<br>" ++ 10 ∷ [] else x ∷ []))

units_of : Text → Text
units_of [] = []
units_of (x ∷ s) = unit_of x ++ units_of s

htmlescape-units_of : (s : Text) → htmlescape s ≡ units_of s
unfolding htmlescape units_of unit_of
htmlescape-units_of [] = refl
htmlescape-units_of (x ∷ s) = ground (arith, htmlescape-units_of s)

-- What HTML of this kind says: characters and line breaks.
pub data Shown : Type 0 where
  char : ℕ → Shown
  line_break : Shown

abbrev pub starts_with : (prefix s : Text) → Bool
starts_with [] s = true
starts_with (c ∷ prefix) [] = false
starts_with (c ∷ prefix) (x ∷ s) = x == c && starts_with prefix s

abbrev after_unit : Shown → Option (List Shown) → Option (List Shown)
after_unit shown none = none
after_unit shown (some rest) = some (shown ∷ rest)

-- The reading of a text with the entities "&amp;" and "&lt;" and the tag "<br>"; none is a text with an ampersand
-- or a tag beside these. `skip` characters belong to what was read last.
unfoldable pub read_html : (skip : ℕ) → Text → Option (List Shown)
read_html skip [] = some []
read_html (suc skip) (x ∷ s) = read_html skip s
read_html zero (x ∷ s) =
    let rest = read_html 0 s in
    let third = read_html 3 s in
    let fourth = read_html 4 s in
    if x == b'&'
    then (if starts_with (codes "amp;") s
        then after_unit (char b'&') fourth
        else (if starts_with (codes "lt;") s then after_unit (char b'<') third else none))
    else (if x == b'<'
        then (if starts_with (codes "br>") s then after_unit line_break third else none)
        else after_unit (char x) rest)

-- A text with a break before each end of line.
abbrev pub with_breaks : Text → List Shown
with_breaks [] = []
with_breaks (x ∷ s) =
    if x == 10 then line_break ∷ char 10 ∷ with_breaks s else char x ∷ with_breaks s

read_html-unit_of :
    (x : ℕ) (s : Text) (rest : List Shown)
    → read_html 0 s ≡ some rest
    → read_html 0 (unit_of x ++ s)
      ≡ some (if x == 10 then line_break ∷ char 10 ∷ rest else char x ∷ rest)
unfolding read_html unit_of
read_html-unit_of x s rest e = ground arith

read_html-units_of : (s : Text) → read_html 0 (units_of s) ≡ some (with_breaks s)
unfolding units_of
read_html-units_of [] = unfold read_html in refl
read_html-units_of (x ∷ s) = read_html-unit_of x (units_of s) (with_breaks s) (read_html-units_of s)

-- An escaped text says the characters of the text in their order, with a line break before each end of line, and
-- has no other markup.
pub read_html-htmlescape : (s : Text) → read_html 0 (htmlescape s) ≡ some (with_breaks s)
read_html-htmlescape s = ap (read_html 0) (htmlescape-units_of s) ∙ read_html-units_of s
