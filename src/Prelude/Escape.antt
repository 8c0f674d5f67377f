-- ===== src/Prelude/Escape.antt =====
-- `escape` and `unescape`, the functions of JavaScript.
use istatd.Prelude.{
  ℕ, zero, suc, ◌+◌, ◌*◌, ◌/◌, ◌%◌, ◌<◌, ◌≡◌, ◌≢◌, refl, ◌∙◌, ap, arith, Bool, true, false, ◌&&◌,
  ◌||◌, Option, none, some, [], ◌∷◌, ◌++◌, Text, ◌==◌, leb, ltb, if◌then◌else◌, All, Bool-cases,
  inl, inr, nat_eq, append_assoc, append-nil, sym,
}
use istatd.Prelude.Digits.{digit_of}
use istatd.Prelude.Words.{IsFree, append-IsFree}

-- The characters that stay: letters, digits and @*_+-./
unfoldable pub is_plain : ℕ → Bool
is_plain c =
    (leb 48 c && leb c 57)
    || (leb 64 c && leb c 90)
    || (leb 97 c && leb c 122)
    || c == 42
    || c == 95
    || c == 43
    || (leb 45 c && leb c 47)

unfoldable pub hex_digit : ℕ → ℕ
hex_digit d = if ltb d 10 then 48 + d else 55 + d

unfoldable pub escape_unit : ℕ → Text
escape_unit c =
    if is_plain c
    then c ∷ []
    else (if ltb c 256
        then b'%' ∷ hex_digit (c / 16) ∷ hex_digit (c % 16) ∷ []
        else b'%'
          ∷ b'u'
          ∷ hex_digit (c / 4096)
          ∷ hex_digit (c / 256 % 16)
          ∷ hex_digit (c / 16 % 16)
          ∷ hex_digit (c % 16)
          ∷ [])

unfoldable pub escape : Text → Text
unfolding escape_unit
escape [] = []
escape (c ∷ s) = escape_unit c ++ escape s

-- Two hexadecimal digits after the value of those before.
unfoldable pub hex_pair : ℕ → ℕ → Option ℕ
unfolding digit_of
hex_pair a b = elim (digit_of 16 a) [
  | none ↦ none
  | some x ↦ elim (digit_of 16 b) [ none ↦ none | some y ↦ some (x * 16 + y) ]
]

-- What follows a '%': the code unit that it stands for, and the number of characters taken.
unfoldable pub unit_at : Text → Option (ℕ × ℕ)
unit_at (u ∷ a ∷ b ∷ c ∷ d ∷ _) =
    if u == b'u'
    then (elim (hex_pair a b) [
      | none ↦ none
      | some high ↦ elim (hex_pair c d) [ none ↦ none | some low ↦ some (high * 256 + low, 5) ]
    ])
    else (elim (hex_pair u a) [ none ↦ none | some v ↦ some (v, 2) ])
unit_at (a ∷ b ∷ _) = elim (hex_pair a b) [ none ↦ none | some v ↦ some (v, 2) ]
unit_at _ = none

-- `skip` characters were taken by an escape before.
unfoldable pub unescape_from : (skip : ℕ) → Text → Text
unescape_from skip [] = []
unescape_from (suc skip) (c ∷ s) = unescape_from skip s
unescape_from zero (c ∷ s) = elim (c == b'%') [
  | false ↦ c ∷ unescape_from 0 s
  | true ↦ elim (unit_at s) [
    | none ↦ c ∷ unescape_from 0 s
    | some (v, taken) ↦ v ∷ unescape_from taken s
  ]
]

unfoldable pub unescape : Text → Text
unfolding unescape_from
unescape s = unescape_from 0 s

digit_of-hex_digit : (d : ℕ) → d < 16 → digit_of 16 (hex_digit d) ≡ some d
unfolding digit_of hex_digit
digit_of-hex_digit d h = ground arith

hex_pair-hex_digit :
    (x y : ℕ) → x < 16 → y < 16 → hex_pair (hex_digit x) (hex_digit y) ≡ some (x * 16 + y)
unfolding hex_pair
hex_pair-hex_digit x y h k = ground (arith, digit_of-hex_digit x h, digit_of-hex_digit y k)

hex_digit-ne-u : (d : ℕ) → d < 16 → (hex_digit d == b'u') ≡ false
unfolding hex_digit
hex_digit-ne-u d h = ground arith

unit_at-hex_digit :
    (x y : ℕ) (s : Text)
    → x < 16
    → y < 16
    → unit_at (hex_digit x ∷ hex_digit y ∷ s) ≡ some (x * 16 + y, 2)
unfolding unit_at
unit_at-hex_digit x y [] h k = ground (arith, hex_pair-hex_digit x y h k)
unit_at-hex_digit x y (_ ∷ []) h k = ground (arith, hex_pair-hex_digit x y h k)
unit_at-hex_digit x y (_ ∷ _ ∷ []) h k = ground (arith, hex_pair-hex_digit x y h k)
unit_at-hex_digit x y (_ ∷ _ ∷ _ ∷ s) h k =
    ground (arith, hex_pair-hex_digit x y h k, hex_digit-ne-u x h)

unit_at-u :
    (x y z w : ℕ) (s : Text)
    → x < 16
    → y < 16
    → z < 16
    → w < 16
    → unit_at (b'u' ∷ hex_digit x ∷ hex_digit y ∷ hex_digit z ∷ hex_digit w ∷ s)
      ≡ some ((x * 16 + y) * 256 + (z * 16 + w), 5)
unfolding unit_at
unit_at-u x y z w s hx hy hz hw =
    ground (arith, hex_pair-hex_digit x y hx hy, hex_pair-hex_digit z w hz hw)

is_plain-ne-percent : (c : ℕ) → is_plain c ≡ true → (c == b'%') ≡ false
unfolding is_plain
is_plain-ne-percent c h = ground arith

unescape_from-escape_unit :
    (c : ℕ) (s : Text) → c < 65_536 → unescape_from 0 (escape_unit c ++ s) ≡ c ∷ unescape_from 0 s
unfolding escape_unit unescape_from
unescape_from-escape_unit c s h = elim (Bool-cases (is_plain c)) [
  | inl e ↦ rw e (ground (arith, is_plain-ne-percent c e))
  | inr e ↦ elim (Bool-cases (ltb c 256)) [
    | inl f ↦ rw e (rw f (ground (arith, unit_at-hex_digit (c / 16) (c % 16) s)))
    | inr f ↦
        rw e (rw f (ground (arith, unit_at-u (c / 4096) (c / 256 % 16) (c / 16 % 16) (c % 16) s)))
  ]
]

unescape_from-escape :
    (s t : Text)
    → All (λ c. c < 65_536) s
    → unescape_from 0 (escape s ++ t) ≡ s ++ unescape_from 0 t
unfolding escape
unescape_from-escape [] t h = refl
unescape_from-escape (c ∷ s) t h =
    ap (unescape_from 0) (append_assoc (escape_unit c) (escape s) t)
    ∙ unescape_from-escape_unit c (escape s ++ t) h.0
    ∙ ap (c ∷◌) (unescape_from-escape s t h.1)

-- Escaping is undone, for a text of code units.
pub unescape-escape : (s : Text) → All (λ c. c < 65_536) s → unescape (escape s) ≡ s
unfolding unescape
unescape-escape s h =
    ap (unescape_from 0) (sym (append-nil (escape s))) ∙ unescape_from-escape s [] h ∙ append-nil s

hex_digit-is_plain : (d : ℕ) → d < 16 → is_plain (hex_digit d) ≡ true
unfolding is_plain hex_digit
hex_digit-is_plain d h = ground arith

is_plain-u : is_plain b'u' ≡ true
unfolding is_plain
is_plain-u = refl

escape_unit-IsFree :
    (c x : ℕ) → is_plain c ≡ false → c ≢ b'%' → x < 65_536 → IsFree c (escape_unit x)
unfolding escape_unit
escape_unit-IsFree c x h k below = ground (
  arith,
  hex_digit-is_plain (x / 16),
  hex_digit-is_plain (x % 16),
  hex_digit-is_plain (x / 4096),
  hex_digit-is_plain (x / 256 % 16),
  hex_digit-is_plain (x / 16 % 16),
  is_plain-u,
)

-- What is not plain, and no '%' or 'u', is not in an escaped text.
pub escape-IsFree :
    (c : ℕ) (s : Text)
    → is_plain c ≡ false
    → c ≢ b'%'
    → All (λ c. c < 65_536) s
    → IsFree c (escape s)
unfolding escape
escape-IsFree c [] h k below = refl
escape-IsFree c (x ∷ s) h k below =
    append-IsFree c (escape_unit x) (escape s) (escape_unit-IsFree c x h k below.0)
      (escape-IsFree c s h k below.1)
