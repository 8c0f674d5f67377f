-- ===== src/Filter/Wildcards.antt =====
-- A pattern's words in a name, in their order.
use istatd.Prelude.{
  ℕ, Bool, true, false, not, ◌||◌, Option, none, some, List, [], ◌∷◌, ◌++◌, ◌≡◌, ◌↔◌, refl, sym, ap,
  ◌∙◌, Text, arith, ◌==◌, contains, nat_eq, if◌then◌else◌, ◌>>=◌, All, Bool-cases, inl, inr, ◌≢◌,
  text_eq, text_eq_iff, append_assoc, append-nil,
}
use istatd.Prelude.Words.{split, codes, prepend, split_of_IsFree, split-ne-nil}
use istatd.Filter.Regexp.{Item, star, any, metas, read, match_here, search_in}
use istatd.Filter.Matching.{
  IsPlain, IsInLine, atoms, after, Somewhere, star_loop_iff, search_in_iff, match_here-atoms,
  after-All, read-append,
}
use istatd.Filter.{join_with, anything, source_of, compile}

-- The words stand in the text, each behind some gap; a dot of a word stands for any character.
abbrev pub InOrder : List Text → Text → Type 0
InOrder [] s = true ≡ true
InOrder (w ∷ ws) s =
    (gap rest rest' : Text) × (s ≡ gap ++ rest) × (after w rest ≡ some rest') × InOrder ws rest'

word_items : List Text → List Item
word_items [] = []
word_items (w ∷ []) = atoms w
word_items (w ∷ v ∷ ws) = atoms w ++ (star any ∷ word_items (v ∷ ws))

read-anything :
    (before : List Item) (s : Text) {items : List Item}
    → read s ≡ some items
    → (do found ← read (anything ++ s); some (before ++ found))
      ≡ some (before ++ (star any ∷ items))
unfolding read
read-anything before s e = rw e

read-join_with :
    (ws : List Text) → All (All IsPlain) ws → read (join_with anything ws) ≡ some (word_items ws)
unfolding join_with word_items
read-join_with [] h = unfold read in refl
read-join_with (w ∷ []) h =
    let whole : read (w ++ []) ≡ some (atoms w ++ []) = unfold read in read-append w [] h.0 refl in
    rw (append-nil w, append-nil (atoms w)) at whole
read-join_with (w ∷ v ∷ ws) h =
    read-append w (anything ++ join_with anything (v ∷ ws)) h.0 refl
    ∙ read-anything (atoms w) (join_with anything (v ∷ ws)) (read-join_with (v ∷ ws) h.1)

-- The first word stands at the start, the others behind it in order.
abbrev Follows : List Text → Text → Type 0
Follows [] s = true ≡ true
Follows (w ∷ ws) s = (rest : Text) × (after w s ≡ some rest) × InOrder ws rest

-- A pattern in some place.
InOrder-iff :
    (w : Text) (ws : List Text) (s : Text) → Somewhere (Follows (w ∷ ws)) s ↔ InOrder (w ∷ ws) s
InOrder-iff w ws s = (
  λ (gap, rest, e, (rest', a, io)). (gap, rest, rest', e, a, io),
  λ (gap, rest, rest', e, a, io). (gap, rest, e, (rest', a, io)),
)

suffix-All : (gap rest : Text) → All IsInLine (gap ++ rest) → All IsInLine rest
suffix-All [] rest h = h
suffix-All (c ∷ gap) rest h = suffix-All gap rest h.1

Somewhere-map :
    {P Q : Text → Type 0} (s : Text)
    → All IsInLine s
    → ((t : Text) → All IsInLine t → P t → Q t)
    → Somewhere P s
    → Somewhere Q s
Somewhere-map s h f (gap, rest, e, p) = (gap, rest, e, f rest (suffix-All gap rest (rw e at h)) p)

reached :
    (o : Option Text) (f : Text → Bool)
    → elim o [ none ↦ false | some rest ↦ f rest ] ≡ true
    → (rest : Text) × (o ≡ some rest) × (f rest ≡ true)
reached none f e = cc
reached (some rest) f e = (rest, refl, e)

module _ (w : Text) (items : List Item) (s : Text) (h : All IsInLine s) where
  -- A word at the start, and what follows behind it.
  atoms-reached :
      match_here (atoms w ++ items) s ≡ true
      → (rest : Text) × (after w s ≡ some rest) × (match_here items rest ≡ true)
  atoms-reached e = reached (after w s) (match_here items) (sym (match_here-atoms w items s h) ∙ e)

  reached-atoms :
      (rest : Text)
      → after w s ≡ some rest
      → match_here items rest ≡ true
      → match_here (atoms w ++ items) s ≡ true
  reached-atoms rest a e = match_here-atoms w items s h ∙ rw a e

mutual
  unfolding word_items match_here

  word_items-Follows :
      (ws : List Text) (s : Text)
      → All IsInLine s
      → match_here (word_items ws) s ≡ true
      → Follows ws s
  word_items-Follows [] s h e = refl
  word_items-Follows (w ∷ []) s h e =
      let (rest, a, p) = atoms-reached w [] s h (rw (append-nil (atoms w)) e) in (rest, a, refl)
  word_items-Follows (w ∷ v ∷ ws) s h e =
      let (rest, a, p) = atoms-reached w (star any ∷ word_items (v ∷ ws)) s h e in
      let inside = after-All w s rest h a in
      (
        rest,
        a,
        (InOrder-iff v ws rest).0 (
            Somewhere-map rest inside (word_items-Follows (v ∷ ws))
              ((star_loop_iff _ rest inside).0 p)),
      )

  Follows-word_items :
      (ws : List Text) (s : Text)
      → All IsInLine s
      → Follows ws s
      → match_here (word_items ws) s ≡ true
  Follows-word_items [] s h f = refl
  Follows-word_items (w ∷ []) s h (rest, a, io) =
      rw (append-nil (atoms w)) at (reached-atoms w [] s h rest a refl)
  Follows-word_items (w ∷ v ∷ ws) s h (rest, a, io) =
      let inside = after-All w s rest h a in
      reached-atoms w (star any ∷ word_items (v ∷ ws)) s h rest a (
        (star_loop_iff _ rest inside).1
          (Somewhere-map rest inside (Follows-word_items (v ∷ ws)) ((InOrder-iff v ws rest).1 io)))

-- Plain text and stars.
abbrev pub IsPattern : Text → Type 0
IsPattern = All (λ c. (c == b'*' || not (contains metas c)) ≡ true)

prepend-All :
    (c : ℕ) (ws : List Text) → IsPlain c → All (All IsPlain) ws → All (All IsPlain) (prepend c ws)
unfolding prepend
prepend-All c [] p h = ((p, tt), tt)
prepend-All c (w ∷ ws) p h = ((p, h.0), h.1)

split-All-IsPlain : (s : Text) → IsPattern s → All (All IsPlain) (split b'*' s)
unfolding split
split-All-IsPlain [] h = (tt, tt)
split-All-IsPlain (c ∷ s) h = elim (Bool-cases (c == b'*')) [
  | inl e ↦ rw e (tt, split-All-IsPlain s h.1)
  | inr e ↦ rw e (prepend-All c (split b'*' s) (ground (arith, h.0)) (split-All-IsPlain s h.1))
]

-- The words between which the source has ".*".
words_of : Text → List Text
words_of proto_pat =
    if text_eq proto_pat (codes "*")
    then [] ∷ [] ∷ []
    else (if not (contains proto_pat b'*') then [] ∷ proto_pat ∷ [] ∷ [] else split b'*' proto_pat)

source_of-words : (proto_pat : Text) → source_of proto_pat ≡ join_with anything (words_of proto_pat)
unfolding source_of words_of join_with
source_of-words proto_pat = ground arith

IsPattern-All : (s : Text) → IsPattern s → contains s b'*' ≡ false → All IsPlain s
IsPattern-All [] h e = tt
IsPattern-All (c ∷ s) h e = (ground (arith, h.0), IsPattern-All s h.1 (ground arith))

words_of-All : (proto_pat : Text) → IsPattern proto_pat → All (All IsPlain) (words_of proto_pat)
unfolding words_of
words_of-All proto_pat h = elim (Bool-cases (text_eq proto_pat (codes "*"))) [
  | inl e ↦ rw e (tt, (tt, tt))
  | inr e ↦ rw e (elim (Bool-cases (contains proto_pat b'*')) [
    | inl k ↦ rw k (split-All-IsPlain proto_pat h)
    | inr k ↦ rw k (tt, (IsPattern-All proto_pat h k, (tt, tt)))
  ])
]

after_nil : (s t : Text) → after [] s ≡ some t → s ≡ t
unfolding after
after_nil s t e = cc

joined : (g s k t : Text) {r : Text} → r ≡ g ++ s → s ≡ k ++ t → r ≡ (g ++ k) ++ t
joined g s k t e f = e ∙ ap (λ x. g ++ x) f ∙ sym (append_assoc g k t)

-- Empty words on both sides ask for nothing.
between : (w s : Text) → InOrder ([] ∷ w ∷ [] ∷ []) s ↔ InOrder (w ∷ []) s
unfolding after
between w s = (
  λ (g, r, r', e, a, (k, t, t', f, b, more)).
      (g ++ k, t, t', joined g r k t e (after_nil r r' a ∙ f), b, refl),
  λ (g, r, r', e, a, more).
      ([], s, s, refl, refl, (g, r, r', e, a, ([], r', r', refl, refl, refl))),
)

all_blank : (s : Text) → InOrder ([] ∷ [] ∷ []) s
unfolding after
all_blank s = ([], s, s, refl, refl, ([], s, s, refl, refl, refl))

words_of-InOrder :
    (proto_pat s : Text) → InOrder (words_of proto_pat) s ↔ InOrder (split b'*' proto_pat) s
unfolding words_of split
words_of-InOrder proto_pat s = elim (Bool-cases (text_eq proto_pat (codes "*"))) [
  | inl e ↦ rw (e, (text_eq_iff proto_pat (codes "*")).0 e) (λ h. all_blank s, λ h. all_blank s)
  | inr e ↦ rw e (elim (Bool-cases (contains proto_pat b'*')) [
    | inl k ↦ rw k (λ h. h, λ h. h)
    | inr k ↦ rw (k, split_of_IsFree b'*' proto_pat k) (between proto_pat s)
  ])
]

word_items-InOrder :
    (ws : List Text) (s : Text)
    → All IsInLine s
    → ws ≢ []
    → (search_in (word_items ws) s ≡ true) ↔ InOrder ws s
word_items-InOrder [] s h n = absurd (n refl)
word_items-InOrder (w ∷ ws) s h n = (
  λ e.
      (InOrder-iff w ws s).0
        (Somewhere-map s h (word_items-Follows (w ∷ ws)) ((search_in_iff _ s).0 e)),
  λ io.
      (search_in_iff _ s).1
        (Somewhere-map s h (Follows-word_items (w ∷ ws)) ((InOrder-iff w ws s).1 io)),
)

words_of-ne-nil : (proto_pat : Text) → words_of proto_pat ≢ []
unfolding words_of
words_of-ne-nil proto_pat = ground (arith, split-ne-nil b'*' proto_pat)

module _ (regexp : Text → Option (Text → Bool)) (proto_pat name : Text) where
  -- A pattern of plain text and stars always compiles, and a name with no line end has a match exactly when
  -- the texts between the stars stand in it in their order, where a dot of the pattern stands for any
  -- character.
  pub compile-InOrder :
      IsPattern proto_pat
      → All IsInLine name
      → (found : Text → Bool) × (compile regexp (source_of proto_pat) ≡ some found)
        × ((found name ≡ true) ↔ InOrder (split b'*' proto_pat) name)
  unfolding compile
  compile-InOrder p h =
      let compiled : read (source_of proto_pat) ≡ some (word_items (words_of proto_pat)) =
        rw (source_of-words proto_pat)
          (read-join_with (words_of proto_pat) (words_of-All proto_pat p)) in
      let searched = word_items-InOrder (words_of proto_pat) name h (words_of-ne-nil proto_pat) in
      let same_words = words_of-InOrder proto_pat name in
      (
        search_in (word_items (words_of proto_pat)),
        rw (compiled, compile),
        (λ e. same_words.0 (searched.0 e), λ io. searched.1 (same_words.1 io)),
      )
