-- ===== src/Filter/Matching.antt =====
-- What the items of a regular expression match: a word at a place, a word behind a gap, and how the source of
-- a word is read.
use istatd.Prelude.{
  ℕ, Bool, true, false, ◌||◌, Option, none, some, List, [], ◌∷◌, ◌++◌, ◌≡◌, ◌↔◌, refl, ap, Text,
  arith, ◌==◌, contains, nat_eq, if◌then◌else◌, ◌>>=◌, All, Bool-cases, inl, inr,
}
use istatd.Filter.Regexp.{
  Atom, lit, any, Item, once, is_line_end, accepts, metas, atom_of, read, star_loop, match_here,
  search_in,
}

-- A character that is not one of the others' syntax; a dot is allowed.
abbrev pub IsPlain : ℕ → Type 0
IsPlain c = contains metas c ≡ false

-- A character that '.' matches.
abbrev pub IsInLine : ℕ → Type 0
IsInLine c = is_line_end c ≡ false

unfoldable pub atom : ℕ → Atom
atom c = if c == b'.' then any else lit c

unfoldable pub atoms : Text → List Item
atoms [] = []
atoms (c ∷ w) = once (atom c) ∷ atoms w

-- The text behind a word that stands at its start; a dot of the word stands for any character.
unfoldable pub after : Text → Text → Option Text
after [] s = some s
after (c ∷ w) [] = none
after (c ∷ w) (d ∷ s) = if c == b'.' || c == d then after w s else none

-- Some part of the text, behind a gap, at which the test holds.
abbrev pub Somewhere : (Text → Type 0) → Text → Type 0
Somewhere P s = (gap rest : Text) × (s ≡ gap ++ rest) × P rest

abbrev shift : {P : Text → Type 0} (c : ℕ) {s : Text} → Somewhere P s → Somewhere P (c ∷ s)
shift c (gap, rest, e, p) = (c ∷ gap, rest, ap (λ t. c ∷ t) e, p)

star_loop-Somewhere :
    (f : Text → Bool) (s : Text) → star_loop f any s ≡ true → Somewhere (λ t. f t ≡ true) s
unfolding star_loop accepts
star_loop-Somewhere f [] h = ([], [], refl, h)
star_loop-Somewhere f (c ∷ s) h = elim (Bool-cases (f (c ∷ s))) [
  | inl e ↦ ([], c ∷ s, refl, e)
  | inr e ↦ shift c (star_loop-Somewhere f s (ground arith))
]

star_loop-gap :
    (f : Text → Bool) (gap rest : Text)
    → All IsInLine (gap ++ rest)
    → f rest ≡ true
    → star_loop f any (gap ++ rest) ≡ true
unfolding star_loop accepts
star_loop-gap f [] [] h e = e
star_loop-gap f [] (c ∷ rest) h e = ground arith
star_loop-gap f (c ∷ gap) rest h e = ground (arith, star_loop-gap f gap rest h.1 e)

-- A starred dot finds what stands behind some gap.
pub star_loop_iff :
    (f : Text → Bool) (s : Text)
    → All IsInLine s
    → (star_loop f any s ≡ true) ↔ Somewhere (λ t. f t ≡ true) s
star_loop_iff f s h =
    (star_loop-Somewhere f s, λ (gap, rest, e, p). rw e (star_loop-gap f gap rest (rw e at h) p))

search_in-Somewhere :
    (items : List Item) (s : Text)
    → search_in items s ≡ true
    → Somewhere (λ t. match_here items t ≡ true) s
unfolding search_in
search_in-Somewhere items [] h = ([], [], refl, h)
search_in-Somewhere items (c ∷ s) h = elim (Bool-cases (match_here items (c ∷ s))) [
  | inl e ↦ ([], c ∷ s, refl, e)
  | inr e ↦ shift c (search_in-Somewhere items s (ground arith))
]

search_in-gap :
    (items : List Item) (gap rest : Text)
    → match_here items rest ≡ true
    → search_in items (gap ++ rest) ≡ true
unfolding search_in
search_in-gap items [] [] e = e
search_in-gap items [] (c ∷ rest) e = ground arith
search_in-gap items (c ∷ gap) rest e = ground (arith, search_in-gap items gap rest e)

pub search_in_iff :
    (items : List Item) (s : Text)
    → (search_in items s ≡ true) ↔ Somewhere (λ t. match_here items t ≡ true) s
search_in_iff items s =
    (search_in-Somewhere items s, λ (gap, rest, e, p). rw e (search_in-gap items gap rest p))

accepts-atom : (c d : ℕ) → IsInLine d → accepts (atom c) d ≡ (c == b'.' || c == d)
unfolding accepts atom
accepts-atom c d h = ground arith

pub match_here-atoms :
    (w : Text) (items : List Item) (s : Text)
    → All IsInLine s
    → match_here (atoms w ++ items) s
      ≡ elim (after w s) [ none ↦ false | some rest ↦ match_here items rest ]
unfolding match_here atoms after
match_here-atoms [] items s h = refl
match_here-atoms (c ∷ w) items [] h = refl
match_here-atoms (c ∷ w) items (d ∷ s) h = elim (Bool-cases (c == b'.' || c == d)) [
  | inl e ↦ rw (accepts-atom c d h.0, e) (match_here-atoms w items s h.1)
  | inr e ↦ rw (accepts-atom c d h.0, e)
]

pub after-All : (w s rest : Text) → All IsInLine s → after w s ≡ some rest → All IsInLine rest
unfolding after
after-All [] s rest h e = ground arith
after-All (c ∷ w) [] rest h e = ground arith
after-All (c ∷ w) (d ∷ s) rest h e = ground (arith, after-All w s rest h.1)

-- What may follow a word: no star.
abbrev pub IsNoStar : Text → Type 0
IsNoStar [] = true ≡ true
IsNoStar (c ∷ s) = (c == b'*') ≡ false

atom_of_lem : (c : ℕ) → IsPlain c → atom_of c ≡ some (atom c)
unfolding atom_of atom
atom_of_lem c h = ground arith

read-cons :
    (c : ℕ) (s : Text)
    → IsPlain c
    → IsNoStar s
    → read (c ∷ s) ≡ (do items ← read s; some (once (atom c) ∷ items))
unfolding read
read-cons c [] h n = rw (atom_of_lem c h)
read-cons c (d ∷ s) h n = rw (n, atom_of_lem c h)

IsPlain-ne-star : (c : ℕ) → IsPlain c → (c == b'*') ≡ false
IsPlain-ne-star c h = ground arith

append-IsNoStar : (w t : Text) → All IsPlain w → IsNoStar t → IsNoStar (w ++ t)
append-IsNoStar [] t h n = n
append-IsNoStar (c ∷ w) t h n = IsPlain-ne-star c h.0

pub read-append :
    (w t : Text)
    → All IsPlain w
    → IsNoStar t
    → read (w ++ t) ≡ (do items ← read t; some (atoms w ++ items))
unfolding atoms
read-append [] t h n = ground arith
read-append (c ∷ w) t h n =
    rw (read-cons c (w ++ t) h.0 (append-IsNoStar w t h.1 n), read-append w t h.1 n) (ground arith)
