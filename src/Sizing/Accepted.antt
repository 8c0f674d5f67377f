-- ===== src/Sizing/Accepted.antt =====
-- Which sizes `size_setCustom` of files/graph.js takes.
use istatd.Prelude.{
  ℕ, ◌≤◌, ◌≡◌, refl, sym, ◌∙◌, arith, ◌||◌, ◌&&◌, Option, none, some, List, [], ◌∷◌, ◌++◌, Text,
  leb, text_eq, if◌then◌else◌, All, Bool-cases, inl, inr, ap₂, subst,
}
use istatd.Prelude.Int.{ℤ, pos, negsuc}
use istatd.Prelude.Words.{split-append, split_of_IsFree}
use istatd.Prelude.Digits.{
  show, show_ℤ, parse_int, parse_int-show_ℤ, show-IsDigit, show-IsFree, IsDigit, show-ne_nil,
}
use istatd.Page.{Page}
use istatd.Sizing.{
  digits_only, set_numbers, set_texts, two_parts, set_parts, size_set_custom, set_graph_size,
  out_of_range,
}

digits_only-IsDigit : (s : Text) → All IsDigit s → digits_only s ≡ s
unfolding digits_only
digits_only-IsDigit [] h = refl
digits_only-IsDigit (c ∷ s) h = ground (arith, h.0, digits_only-IsDigit s h.1)

two_parts-show : (w h : ℕ) → two_parts (show w ++ b'x' ∷ show h) ≡ show w ∷ show h ∷ []
unfolding two_parts
two_parts-show w h =
    rw
      (
        split-append b'x' (show w) (show h) (show-IsFree b'x' w (omega arith)),
        split_of_IsFree b'x' (show h) (show-IsFree b'x' h (omega arith)),
      )
      refl

-- What the test of the numbers says of a size.
abbrev pub taken : (w h : ℕ) → Page → Page × Option Text
taken w h p =
    if leb 10 w && leb w 4000 && leb 10 h && leb h 2000
    then (record p { size = record { width = w; height = h } }, none)
    else (p, some out_of_range)

set_numbers-taken : (w h : ℕ) (p : Page) → set_numbers (some (pos w)) (some (pos h)) p ≡ taken w h p
unfolding set_numbers set_graph_size
set_numbers-taken w h p = ground arith

set_texts-show : (w h : ℕ) (p : Page) → set_texts (show w) (show h) p ≡ taken w h p
unfolding set_texts show_ℤ
set_texts-show w h p =
    rw (show-ne_nil w, show-ne_nil h, parse_int-show_ℤ (pos w), parse_int-show_ℤ (pos h))
      (set_numbers-taken w h p)

-- A size that is written as WxH is taken exactly if the width is from 10 to 4000 and the height from 10 to
-- 2000; all else of the page stays, the chosen item of the menu of sizes too.
pub size_set_custom-show :
    (w h : ℕ) (p : Page) → size_set_custom (show w ++ b'x' ∷ show h) p ≡ taken w h p
unfolding size_set_custom set_parts
size_set_custom-show w h p =
    rw (two_parts-show w h, size_set_custom)
      (ap₂ (λ x y. set_texts x y p) (digits_only-IsDigit (show w) (show-IsDigit w))
          (digits_only-IsDigit (show h) (show-IsDigit h))
        ∙ set_texts-show w h p)

-- The page after the dialog: the same one where there is a message, and else one with another size.
abbrev pub IsBounded : Page → Page × Option Text → Type 0
IsBounded p (p', some message) = p' ≡ p
IsBounded p (p', none) =
    (w : ℕ) × (h : ℕ) × (10 ≤ w)
    × (w ≤ 4000)
    × (10 ≤ h)
    × (h ≤ 2000)
    × (p' ≡ record p { size = record { width = w; height = h } })

taken-IsBounded : (w h : ℕ) (p : Page) → IsBounded p (taken w h p)
taken-IsBounded w h p = elim (Bool-cases (leb 10 w && leb w 4000 && leb 10 h && leb h 2000)) [
  | inl e ↦ rw e (w, h, ground arith, ground arith, ground arith, ground arith, refl)
  | inr e ↦ rw e refl
]

set_numbers-IsBounded : (w h : Option ℤ) (p : Page) → IsBounded p (set_numbers w h p)
unfolding set_numbers
set_numbers-IsBounded (some (pos w)) (some (pos h)) p =
    subst (IsBounded p) (sym (set_numbers-taken w h p)) (taken-IsBounded w h p)
set_numbers-IsBounded (some (pos w)) (some (negsuc h)) p = refl
set_numbers-IsBounded (some (pos w)) none p = refl
set_numbers-IsBounded (some (negsuc w)) h p = refl
set_numbers-IsBounded none h p = refl

set_texts-IsBounded : (w_str h_str : Text) (p : Page) → IsBounded p (set_texts w_str h_str p)
unfolding set_texts
set_texts-IsBounded w_str h_str p = elim (Bool-cases (text_eq w_str [] || text_eq h_str [])) [
  | inl e ↦ rw e refl
  | inr e ↦ rw e (set_numbers-IsBounded (parse_int w_str) (parse_int h_str) p)
]

set_parts-IsBounded : (l : List Text) (p : Page) → IsBounded p (set_parts l p)
unfolding set_parts
set_parts-IsBounded [] p = refl
set_parts-IsBounded (w ∷ []) p = refl
set_parts-IsBounded (w ∷ h ∷ []) p = set_texts-IsBounded (digits_only w) (digits_only h) p
set_parts-IsBounded (w ∷ h ∷ x ∷ l) p = refl

-- Whatever is written, the page stays as it is or takes a width from 10 to 4000 and a height from 10 to 2000.
pub size_set_custom-IsBounded :
    (size_str : Text) (p : Page) → IsBounded p (size_set_custom size_str p)
unfolding size_set_custom
size_set_custom-IsBounded size_str p = set_parts-IsBounded (two_parts size_str) p
