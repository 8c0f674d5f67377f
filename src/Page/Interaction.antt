-- ===== src/Page/Interaction.antt =====
-- Zooming with the mouse in files/graph.js: the interaction model that `repaint` makes, and its `zoomCallback`.
-- What Dygraph's own handlers do comes as the range with which they call `zoomCallback`, if they do.
use istatd.Prelude.{
  Bool, Option, none, some, List, [], ◌≡◌, refl, ◌∙◌, ap, ◌&&◌, Text, text_eq_instance, text_eq_iff,
  if◌then◌else◌,
}
use istatd.Prelude.Int.{eqb_ℤ}
use istatd.Prelude.Object.{Object, get, put, get-put}
use istatd.Dates.{Span}
use istatd.Page.{Page, Browser, Output, Op, zoom_callback, zoom_out_intervals, ◌>>◌}

-- `lastDomain`; a graph is the text that it gives as a key, which others may give too.
abbrev pub Domains : Type 0
Domains = Object Text Span

unfoldable pub same_range : Span → Span → Bool
same_range d range = eqb_ℤ d.start range.start && eqb_ℤ d.stop range.stop

get-put_self :
    (graph : Text) (d : Span) (domains : Domains) → get graph (put graph d domains) ≡ some d
get-put_self graph d domains =
    get-put graph graph d domains
    ∙ ap (λ t. if t then some d else get graph domains) ((text_eq_iff graph graph).1 refl)

module _ {D : Type 0} (b : Browser) where
  -- `zoomCallback`: a domain that is not known is different from any other.
  unfoldable pub on_zoom : (graph : Text) → Domains → Span → Op D
  unfolding same_range
  on_zoom graph domains range p = elim (get graph domains) [
    | none ↦ zoom_callback b range p
    | some domain ↦ if same_range domain range then (p, []) else zoom_callback b range p
  ]

  unfoldable pub calls : (graph : Text) → Domains → Option Span → Op D
  unfolding on_zoom
  calls graph domains none p = (p, [])
  calls graph domains (some range) p = on_zoom graph domains range p

  -- `mouseup`, where the graph shows the range `axis`.
  unfoldable pub mouse_up :
      (graph : Text) (axis : Span)
      → Option Span
      → Page × Domains
      → (Page × List (Output D)) × Domains
  unfolding calls
  mouse_up graph axis called (p, domains) =
      let domains' = put graph axis domains in (calls graph domains' called p, domains')

  -- `dblclick`
  unfoldable pub double_click :
      (graph : Text) → Option Span → Page × Domains → (Page × List (Output D)) × Domains
  unfolding calls
  double_click graph called (p, domains) =
      ((zoom_out_intervals b >> calls graph domains called) p, domains)

  -- When the mouse goes up, the range that the graph showed until then is what the callback compares with,
  -- whatever was kept before: a zoom in the other direction changes nothing and asks for nothing, and one in
  -- time takes the new range over.
  mouse_up_lem :
      (graph : Text) (axis range : Span) (p : Page) (domains : Domains)
      → (mouse_up graph axis (some range) (p, domains)).0
        ≡ (if same_range axis range then (p, []) else zoom_callback b range p)
  unfolding mouse_up
  mouse_up_lem graph axis range p domains = rw (get-put_self graph axis domains, on_zoom)
