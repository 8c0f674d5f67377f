-- ===== src/Menus/Tabs/Panel.antt =====
-- The panel with the tabs, closed and opened again.
use istatd.Prelude.{◌≡◌, refl, ◌∙◌, arith, false, Text, List, [], ◌∷◌}
use istatd.Prelude.Int.{ℤ, pos, negsuc}
use istatd.Menus.Tabs.{LeftTab, Mouse, up, down, move, on_mouse, mice, toggle_lefttab_visibility}

module _ (set_width : ℤ → Text → Text) where
  -- The mouse leaves the panel as closed as it was, and the width that is kept.
  mouse-keeps :
      (m : Mouse) (t : LeftTab)
      → ((on_mouse set_width m t).closed ≡ t.closed)
        × ((on_mouse set_width m t).old_element_width ≡ t.old_element_width)
  unfolding on_mouse
  mouse-keeps up t = (refl, refl)
  mouse-keeps down t = (refl, refl)
  mouse-keeps (move (negsuc x)) t = (refl, refl)
  mouse-keeps (move (pos x)) t = ground arith

  mice-keeps :
      (ms : List Mouse) (t : LeftTab)
      → ((mice set_width ms t).closed ≡ t.closed)
        × ((mice set_width ms t).old_element_width ≡ t.old_element_width)
  unfolding mice
  mice-keeps [] t = (refl, refl)
  mice-keeps (m ∷ ms) t =
      let (closed, old) = mouse-keeps m t in
      let (closed_last, old_last) = mice-keeps ms (on_mouse set_width m t) in
      (closed_last ∙ closed, old_last ∙ old)

  -- An open panel that is closed and opened again has its width, however the splitter was dragged meanwhile.
  toggle-mice :
      (t : LeftTab) (ms : List Mouse)
      → t.closed ≡ false
      → ((toggle_lefttab_visibility (mice set_width ms (toggle_lefttab_visibility t))).closed
          ≡ false)
        × ((toggle_lefttab_visibility (mice set_width ms (toggle_lefttab_visibility t))).width
            ≡ t.width)
  unfolding toggle_lefttab_visibility
  toggle-mice t ms open_before = ground (arith, mice-keeps ms (toggle_lefttab_visibility t))
