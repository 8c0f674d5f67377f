-- ===== src/Filter/Regexp.antt =====
-- The regular expressions that the search for counters makes in files/graph.js: characters, '.', and a star
-- behind one of these. `search` tries every place, and takes the alternatives of a star in any order, which
-- only matters for what is found and not for whether.
use istatd.Prelude.{
  ℕ, Bool, true, false, not, ◌&&◌, ◌||◌, Option, none, some, List, [], ◌∷◌, Text, ◌==◌, contains,
  nat_eq, if◌then◌else◌, ◌>>=◌,
}
use istatd.Prelude.Words.{codes}

pub data Atom : Type 0 where
  lit : ℕ → Atom
  any : Atom

pub data Item : Type 0 where
  once : Atom → Item
  star : Atom → Item

-- '.' is any character but the ends of lines.
unfoldable pub is_line_end : ℕ → Bool
is_line_end c = c == 10 || c == 13 || c == 8232 || c == 8233

unfoldable pub accepts : Atom → ℕ → Bool
unfolding is_line_end
accepts (lit x) c = x == c
accepts any c = not (is_line_end c)

-- The characters with another meaning.
abbrev pub metas : Text
metas = codes "^$\\+?()[]{}|*"

unfoldable pub atom_of : ℕ → Option Atom
atom_of c = if c == b'.' then some any else (if contains metas c then none else some (lit c))

-- `new RegExp(source)`; none is a source of another form.
unfoldable pub read : Text → Option (List Item)
unfolding atom_of
read [] = some []
read (c ∷ []) = do a ← atom_of c; some (once a ∷ [])
read (c ∷ d ∷ s) =
    let starred = read s in
    let single = read (d ∷ s) in
    if d == b'*'
    then (do a ← atom_of c; items ← starred; some (star a ∷ items))
    else (do a ← atom_of c; items ← single; some (once a ∷ items))

-- What follows a star is tried here, and after each character that the star takes.
unfoldable pub star_loop : (Text → Bool) → Atom → Text → Bool
unfolding accepts
star_loop rest a [] = rest []
star_loop rest a (c ∷ s) = rest (c ∷ s) || (accepts a c && star_loop rest a s)

unfoldable pub match_here : List Item → Text → Bool
unfolding star_loop accepts
match_here [] s = true
match_here (once a ∷ items) [] = false
match_here (once a ∷ items) (c ∷ s) = accepts a c && match_here items s
match_here (star a ∷ items) s = star_loop (match_here items) a s

-- `name.search(pat) != -1`
unfoldable pub search_in : List Item → Text → Bool
unfolding match_here
search_in items [] = match_here items []
search_in items (c ∷ s) = match_here items (c ∷ s) || search_in items s
