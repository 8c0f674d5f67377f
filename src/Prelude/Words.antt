-- ===== src/Prelude/Words.antt =====
-- The string functions of JavaScript that the program calls, on lists of code units.
use Prim.Native.Char.{code}
use Prim.Native.String.{String}
use istatd.Prelude.{
  ℕ, Text, false, List, [], ◌∷◌, ◌++◌, ◌≡◌, ◌≢◌, refl, arith, ◌==◌, ==_iff, if◌then◌else◌, contains,
  All, nat_eq, Bool-cases, inl, inr,
}

-- The code units of an ASCII literal.
abbrev pub codes : String → Text
codes String.[] = []
codes (String.◌∷◌ c s) = code c ∷ codes s

unfoldable pub prepend : ℕ → List Text → List Text
prepend x [] = (x ∷ []) ∷ []
prepend x (w ∷ ws) = (x ∷ w) ∷ ws

-- `s.split(c)` at one character; the result is never empty.
unfoldable pub split : ℕ → Text → List Text
unfolding prepend
split c [] = [] ∷ []
split c (x ∷ s) = if x == c then [] ∷ split c s else prepend x (split c s)

-- `words.join(c)`
unfoldable pub join : ℕ → List Text → Text
join c [] = []
join c (w ∷ []) = w
join c (w ∷ v ∷ ws) = w ++ c ∷ join c (v ∷ ws)

-- The text does not hold the character.
abbrev pub IsFree : ℕ → Text → Type 0
IsFree c s = contains s c ≡ false

pub append-IsFree : (c : ℕ) (s t : Text) → IsFree c s → IsFree c t → IsFree c (s ++ t)
append-IsFree c [] t h k = k
append-IsFree c (x ∷ s) t h k = ground (arith, append-IsFree c s t)

pub split-append : (c : ℕ) (w s : Text) → IsFree c w → split c (w ++ c ∷ s) ≡ w ∷ split c s
unfolding split
split-append c [] s h = ground (arith, ==_iff c c)
split-append c (x ∷ w) s h = ground (arith, split-append c w s)

pub split_of_IsFree : (c : ℕ) (w : Text) → IsFree c w → split c w ≡ w ∷ []
unfolding split
split_of_IsFree c [] h = refl
split_of_IsFree c (x ∷ w) h = ground (arith, split_of_IsFree c w)

-- Splitting takes a join apart, if no word holds the separator.
pub split-join :
    (c : ℕ) (w : Text) (ws : List Text)
    → All (IsFree c) (w ∷ ws)
    → split c (join c (w ∷ ws)) ≡ w ∷ ws
unfolding join
split-join c w [] h = split_of_IsFree c w h.0
split-join c w (v ∷ ws) h = rw (split-append c w (join c (v ∷ ws)) h.0, split-join c v ws h.1)

prepend-ne-nil : (x : ℕ) (ws : List Text) → prepend x ws ≢ []
unfolding prepend
prepend-ne-nil x [] = cc
prepend-ne-nil x (w ∷ ws) = cc

pub split-ne-nil : (c : ℕ) (s : Text) → split c s ≢ []
unfolding split
split-ne-nil c [] = cc
split-ne-nil c (x ∷ s) = ground (arith, prepend-ne-nil x (split c s))

join-prepend : (c x : ℕ) (ws : List Text) → join c (prepend x ws) ≡ x ∷ join c ws
unfolding join prepend
join-prepend c x [] = refl
join-prepend c x (w ∷ []) = refl
join-prepend c x (w ∷ v ∷ ws) = refl

join-nil_cons : (c : ℕ) (ws : List Text) → ws ≢ [] → join c ([] ∷ ws) ≡ c ∷ join c ws
unfolding join
join-nil_cons c [] h = absurd (h refl)
join-nil_cons c (w ∷ ws) h = refl

pub join-split : (c : ℕ) (s : Text) → join c (split c s) ≡ s
unfolding split
join-split c [] = unfold join in refl
join-split c (x ∷ s) = ground (
  arith,
  ==_iff x c,
  join-prepend c x (split c s),
  join-nil_cons c (split c s) (split-ne-nil c s),
  join-split c s,
)

prepend-All :
    (c x : ℕ) (ws : List Text)
    → (x == c) ≡ false
    → All (IsFree c) ws
    → All (IsFree c) (prepend x ws)
unfolding prepend
prepend-All c x [] e h = ground arith
prepend-All c x (w ∷ ws) e h = (ground arith, h.1)

-- No word of a split holds the separator.
pub split-All : (c : ℕ) (s : Text) → All (IsFree c) (split c s)
unfolding split
split-All c [] = (refl, tt)
split-All c (x ∷ s) = elim (Bool-cases (x == c)) [
  | inl e ↦ rw e (refl, split-All c s)
  | inr e ↦ rw e (prepend-All c x (split c s) e (split-All c s))
]
