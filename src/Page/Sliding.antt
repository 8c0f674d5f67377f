-- ===== src/Page/Sliding.antt =====
-- `TimeSlider` of files/graph.js: the choice of a time range among the markers of
-- files/index.html.
use istatd.Prelude.{
  ℕ, ◌-◌, ◌*◌, Bool, true, false, Option, none, some, List, [], ◌∷◌, ◌==◌, min, get_or, length,
  if◌then◌else◌,
}
use istatd.Prelude.Int.{ℤ, pos, ◌+ℤ◌, ◌-ℤ◌, ◌*ℤ◌, pos_part}
use istatd.Dates.{floor_div}
use istatd.Page.{Page, Browser, Op, ◌>>◌, modify, set_interval}

-- The actions of the markers: each calls `set_interval` with this number of seconds.
abbrev pub markers : List ℕ
markers =
    300 ∷ 900 ∷ 3600 ∷ 10800 ∷ 43200 ∷ 86400 ∷ 259200 ∷ 604800 ∷ 2678400 ∷ 7948800 ∷ 15811200
    ∷ 31622400 ∷ 63158400 ∷ 157852800 ∷ []

-- `Math.min(Math.max(index, 0), this.$markers.length - 1)`
unfoldable pub clamp : ℤ → ℕ
clamp index = min (pos_part index) (length markers - 1)

-- `_calculateIndex`. A step between markers is `width / (markers - 1)` pixels wide, and the quotient
-- by it is rounded half up.
unfoldable pub calculate_index : (left : ℤ) (width : ℕ) (x : ℤ) → ℕ
unfolding clamp floor_div
calculate_index left width x =
    clamp (floor_div ((x -ℤ left) *ℤ pos (2 * (length markers - 1)) +ℤ pos width) (2 * width))

unfoldable pub set_manual : Bool → Page → Page
set_manual on p = record p { slider = record p.slider { manual = on } }

unfoldable pub is_index : Option ℕ → ℕ → Bool
is_index none index = false
is_index (some i) index = index == i

module _ {D : Type 0} (b : Browser) where
  -- `_update`: a new index runs the action of its marker.
  unfoldable pub update : ℕ → Op D
  unfolding is_index
  update index =
      (λ p.
        if is_index p.slider.index index
        then (p, [])
        else set_interval b (get_or markers index 0) p)
      >> modify (λ p. record p { slider = record p.slider { index = some index } })

  unfoldable pub set_index : ℤ → Op D
  unfolding update clamp set_manual
  set_index index = modify (set_manual false) >> update (clamp index)

module _ {D : Type 0} (left : ℤ) (width : ℕ) where
  -- The thumb follows the mouse, which starts a drag if there is none.
  unfoldable pub move : ℤ → Op D
  unfolding set_manual
  move x = do
    modify (set_manual false)
    modify (λ p. record p { slider = record p.slider { dragging = true } })

  -- The mouse is released: the drag ends and the index is taken over.
  unfoldable pub release : Browser → ℤ → Op D
  unfolding update calculate_index
  release b x = do
    modify (λ p. record p { slider = record p.slider { dragging = false } })
    update b (calculate_index left width x)
