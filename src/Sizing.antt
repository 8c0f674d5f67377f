-- ===== src/Sizing.antt =====
-- The dialog for a graph size, `size_setCustom` of files/graph.js.
pub mod Accepted
mod Tests
use istatd.Prelude.{
  ℕ, Bool, true, false, ◌||◌, ◌&&◌, Option, none, some, List, [], ◌∷◌, Text, leb, ltb, text_eq,
  if◌then◌else◌, take, length, ◌==◌,
}
use istatd.Prelude.Int.{ℤ, pos, negsuc}
use istatd.Prelude.Words.{codes, split}
use istatd.Prelude.Digits.{parse_int}
use istatd.Page.{Page, Size}

-- `replace(/[^0-9]*/g, '')`
unfoldable pub digits_only : Text → Text
digits_only [] = []
digits_only (c ∷ s) = let rest = digits_only s in if leb 48 c && leb c 57 then c ∷ rest else rest

abbrev pub not_as_asked : Text
not_as_asked = codes "Please specify size as WxH (or W,H)."

abbrev pub not_whole : Text
not_whole = codes "Please specify integer width and height as WxH (or W,H)."

abbrev pub out_of_range : Text
out_of_range = codes "Please specify width and height within reasonable ranges."

-- `setGraphSize`
unfoldable pub set_graph_size : Size → Page → Page
set_graph_size sz p = record p { size = sz }

-- The test of the two numbers; a text without digits does not get here.
unfoldable pub set_numbers : Option ℤ → Option ℤ → Page → Page × Option Text
unfolding set_graph_size
set_numbers (some (pos w)) (some (pos h)) p =
    if ltb w 10 || ltb 4000 w || ltb h 10 || ltb 2000 h
    then (p, some out_of_range)
    else (set_graph_size (record { width = w; height = h }) p, none)
set_numbers _ _ p = (p, some out_of_range)

unfoldable pub set_texts : (w_str h_str : Text) → Page → Page × Option Text
unfolding set_numbers
set_texts w_str h_str p =
    if text_eq w_str [] || text_eq h_str []
    then (p, some not_whole)
    else set_numbers (parse_int w_str) (parse_int h_str) p

-- `sizeStr.split('x', 2)`, and `sizeStr.split(',')` where these are not two.
unfoldable pub two_parts : Text → List Text
two_parts size_str =
    let a = take 2 (split b'x' size_str) in if length a == 2 then a else split b',' size_str

unfoldable pub set_parts : List Text → Page → Page × Option Text
unfolding set_texts digits_only
set_parts (w ∷ h ∷ []) p = set_texts (digits_only w) (digits_only h) p
set_parts _ p = (p, some not_as_asked)

-- The message of the error dialog; `none` where the size is taken.
unfoldable pub size_set_custom : Text → Page → Page × Option Text
unfolding two_parts set_parts
size_set_custom size_str = set_parts (two_parts size_str)
