-- ===== src/Progress.antt =====
-- The progress bar and the error dialog of files/graph.js: `begin`, the function that it returns, and
-- `errorDialog`.
pub mod Escaping
mod Tests
use istatd.Prelude.{
  ℕ, zero, suc, ◌+◌, ◌-◌, Bool, true, false, Option, none, some, List, [], ◌∷◌, ◌++◌, Text, ◌==◌,
  ltb, if◌then◌else◌,
}
use istatd.Prelude.Words.{codes}

-- Where the bar was last sent. At the full width and at none it hides when it arrives.
pub data Motion : Type 0 where
  to_half to_full to_none : Motion

pub record Progress : Type 0 where
  pub nesting : ℕ
  pub motion : Option Motion

abbrev pub idle : Progress
idle = record { nesting = 0; motion = none }

unfoldable pub begin : Progress → Progress
begin p = record {
  nesting = p.nesting + 1;
  motion = if p.nesting == 0 then some to_half else p.motion;
}

-- The function that `begin` returns.
unfoldable pub end : Progress → Progress
end p =
    if ltb 0 p.nesting
    then record {
      nesting = p.nesting - 1;
      motion = if p.nesting - 1 == 0 then some to_full else p.motion;
    }
    else p

-- What `errorDialog` does to the bar.
unfoldable pub error : Progress → Progress
error p = record { nesting = 0; motion = some to_none }

-- `str.replace(/c/g, by)` for one character
unfoldable pub replace_all : ℕ → Text → Text → Text
replace_all c by [] = []
replace_all c by (x ∷ s) = let rest = replace_all c by s in if x == c then by ++ rest else x ∷ rest

unfoldable pub htmlescape : Text → Text
unfolding replace_all
htmlescape str =
    replace_all 10 (codes "<br>" ++ 10 ∷ [])
      (replace_all b'<' (codes "&lt;") (replace_all b'&' (codes "&amp;") str))

-- The text of the error dialog. `shown` is the text of one that is shown already, as the browser gives
-- it back.
unfoldable pub error_text : (shown : Option Text) → Text → Text
unfolding htmlescape
error_text none str = htmlescape str
error_text (some html) str = html ++ (codes "<br/><br/>" ++ htmlescape str)
