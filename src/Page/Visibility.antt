-- ===== src/Page/Visibility.antt =====
-- The listener for the visibility of the page in files/graph.js, which reloads the graphs by `refresh`.
use istatd.Prelude.{
  ◌≡◌, refl, ap, ◌∙◌, arith, Bool, true, false, not, ◌&&◌, List, [], ◌∷◌, ◌++◌, if◌then◌else◌,
}
use istatd.Page.{Page, Browser, Output, refresh}

-- `document_hidden` as it was noted last, and the page.
pub record Seen : Type 0 where
  pub document_hidden : Bool
  pub page : Page

-- Whether two flags differ, `!=`.
abbrev differ : Bool → Bool → Bool
differ true h = not h
differ false h = h

module _ {D : Type 0} where
  -- The listener; the browser says whether the document is hidden now.
  unfoldable pub on_visibility : Browser → Seen → Seen × List (Output D)
  unfolding refresh
  on_visibility b s =
      let (p, out) =
        if differ s.document_hidden b.hidden && b.hidden
        then refresh {D = D} b s.page
        else (s.page, []) in
      (record { document_hidden = b.hidden; page = p }, out)

  -- One change after another.
  unfoldable pub run : List Browser → Seen → Seen × List (Output D)
  unfolding on_visibility
  run [] s = (s, [])
  run (b ∷ bs) s =
      let (s', out) = on_visibility b s in let (s'', more) = run bs s' in (s'', out ++ more)

module _ (D : Type 0) where
  on_visibility-page :
      (b : Browser) (s : Seen)
      → on_visibility {D = D} b s ≡ (record { document_hidden = b.hidden; page = s.page }, [])
  unfolding on_visibility refresh
  on_visibility-page b s = ground arith

  -- However often the page is hidden and shown, the listener leaves it as it is and asks for nothing: it
  -- refreshes only a page that is hidden, which a refresh leaves alone.
  pub run-visible :
      (bs : List Browser) (s : Seen)
      → ((run {D = D} bs s).0.page ≡ s.page) × ((run {D = D} bs s).1 ≡ [])
  unfolding run
  run-visible [] s = (refl, refl)
  run-visible (b ∷ bs) s =
      let one = on_visibility-page b s in
      let rest = run-visible bs (record { document_hidden = b.hidden; page = s.page }) in
      (
        ap (λ r. (run {D = D} bs r.0).0.page) one ∙ rest.0,
        ap (λ r. r.1 ++ (run {D = D} bs r.0).1) one ∙ rest.1,
      )
