-- ===== src/Prelude/Digits.antt =====
-- Numbers as text, as JavaScript prints and reads them: `String(n)` and `parseInt(s)`.
use istatd.Prelude.{
  ℕ, zero, suc, ◌+◌, ◌-◌, ◌*◌, ◌/◌, ◌%◌, ◌≤◌, ◌<◌, ◌≡◌, ◌≢◌, refl, ◌∙◌, ap, arith, Bool, true,
  false, ◌&&◌, ◌||◌, Option, none, some, [], ◌∷◌, ◌++◌, Text, ◌==◌, leb, ltb, if◌then◌else◌, All,
  All-append, Bool-cases, inl, inr, nat_eq, text_eq, text_eq_iff, ◌⊎◌,
}
use istatd.Prelude.Words.{IsFree}
use istatd.Prelude.Int.{ℤ, pos, negsuc, ◌-ℤ◌}

-- The digits of a number, by tens. There are at most as many as the number, and one.
show_from : ℕ → ℕ → Text
show_from zero n = []
show_from (suc fuel) n = elim (ltb n 10) [
  | true ↦ (48 + n) ∷ []
  | false ↦ show_from fuel (n / 10) ++ (48 + n % 10) ∷ []
]

-- `String(n)`
unfoldable pub show : ℕ → Text
unfolding show_from
show n = show_from (suc n) n

unfoldable pub show_ℤ : ℤ → Text
unfolding show
show_ℤ (pos n) = show n
show_ℤ (negsuc n) = b'-' ∷ show (suc n)

-- The value of a digit or letter; `none` for any other character.
unfoldable pub digit_value : ℕ → Option ℕ
digit_value c =
    if leb 48 c && leb c 57
    then some (c - 48)
    else (if leb 65 c && leb c 90
        then some (c - 55)
        else (if leb 97 c && leb c 122 then some (c - 87) else none))

-- A digit of a base.
unfoldable pub digit_of : ℕ → ℕ → Option ℕ
unfolding digit_value
digit_of base c = elim (digit_value c) [
  | none ↦ none
  | some d ↦ if ltb d base then some d else none
]

-- The digits that a text begins with, after the value `acc` of those before.
unfoldable pub read_digits : ℕ → ℕ → Text → ℕ
unfolding digit_of
read_digits base acc [] = acc
read_digits base acc (c ∷ s) = elim (digit_of base c) [
  | none ↦ acc
  | some d ↦ read_digits base (acc * base + d) s
]

-- A text that does not begin with a digit is not a number.
unfoldable pub read_number : ℕ → Text → Option ℕ
unfolding read_digits
read_number base [] = none
read_number base (c ∷ s) = elim (digit_of base c) [
  | none ↦ none
  | some d ↦ some (read_digits base d s)
]

-- "0x" makes the number hexadecimal.
unfoldable pub read_unsigned : Text → Option ℕ
unfolding read_number
read_unsigned (zero' ∷ x ∷ s) =
    if zero' == 48 && (x == b'x' || x == b'X')
    then read_number 16 s
    else read_number 10 (zero' ∷ x ∷ s)
read_unsigned s = read_number 10 s

unfoldable pub is_space : ℕ → Bool
is_space c =
    (leb 9 c && leb c 13)
    || c == 32
    || c == 160
    || c == 5760
    || (leb 8192 c && leb c 8202)
    || c == 8232
    || c == 8233
    || c == 8239
    || c == 8287
    || c == 12288
    || c == 65279

unfoldable pub trim_start : Text → Text
unfolding is_space
trim_start [] = []
trim_start (c ∷ s) = if is_space c then trim_start s else c ∷ s

unfoldable pub negate : Option ℕ → Option ℤ
negate none = none
negate (some n) = some (pos 0 -ℤ pos n)

unfoldable pub positive : Option ℕ → Option ℤ
positive none = none
positive (some n) = some (pos n)

unfoldable pub read_signed : Text → Option ℤ
unfolding read_unsigned negate positive
read_signed [] = none
read_signed (c ∷ s) =
    if c == b'-'
    then negate (read_unsigned s)
    else (if c == b'+' then positive (read_unsigned s) else positive (read_unsigned (c ∷ s)))

-- `parseInt(s)`; `none` is NaN.
unfoldable pub parse_int : Text → Option ℤ
unfolding trim_start read_signed
parse_int s = read_signed (trim_start s)

abbrev pub IsDigit : ℕ → Type 0
IsDigit c = (48 ≤ c) × (c ≤ 57)

show_from-IsDigit : (fuel n : ℕ) → All IsDigit (show_from fuel n)
unfolding show_from
show_from-IsDigit zero n = tt
show_from-IsDigit (suc fuel) n = elim (Bool-cases (ltb n 10)) [
  | inl e ↦ rw (e, show_from) (ground arith)
  | inr e ↦
      rw (e, show_from)
        (All-append IsDigit (show_from fuel (n / 10)) _ (show_from-IsDigit fuel (n / 10))
          (omega arith, tt))
]

digit_of-IsDigit : (c : ℕ) → IsDigit c → digit_of 10 c ≡ some (c - 48)
unfolding digit_of
digit_of-IsDigit c h = ground arith

read_digits-append :
    (acc : ℕ) (s : Text) (c : ℕ)
    → All IsDigit s
    → IsDigit c
    → read_digits 10 acc (s ++ c ∷ []) ≡ read_digits 10 acc s * 10 + (c - 48)
unfolding read_digits
read_digits-append acc [] c h k = rw (digit_of-IsDigit c k, read_digits) refl
read_digits-append acc (x ∷ s) c h k =
    rw (digit_of-IsDigit x h.0, read_digits) (read_digits-append (acc * 10 + (x - 48)) s c h.1 k)

read_number-append :
    (s : Text) (c v : ℕ)
    → All IsDigit s
    → IsDigit c
    → read_number 10 s ≡ some v
    → read_number 10 (s ++ c ∷ []) ≡ some (v * 10 + (c - 48))
unfolding read_number
read_number-append [] c v h k e = cc
read_number-append (x ∷ s) c v h k e =
    ground (arith, digit_of-IsDigit x h.0, read_digits-append (x - 48) s c h.1 k)

read_number-show_from : (fuel n : ℕ) → n < fuel → read_number 10 (show_from fuel n) ≡ some n
unfolding show_from read_number read_digits
read_number-show_from zero n h = absurd (omega (arith, h))
read_number-show_from (suc fuel) n h = elim (Bool-cases (ltb n 10)) [
  | inl e ↦ rw (e, show_from) (ground (arith, digit_of-IsDigit (48 + n)))
  | inr e ↦
      rw (e, show_from)
        (read_number-append (show_from fuel (n / 10)) (48 + n % 10) (n / 10)
            (show_from-IsDigit fuel (n / 10)) (omega arith)
            (read_number-show_from fuel (n / 10) (ground arith))
          ∙ ap some (omega arith))
]

pub show-IsDigit : (n : ℕ) → All IsDigit (show n)
unfolding show
show-IsDigit n = show_from-IsDigit (suc n) n

pub read_number-show : (n : ℕ) → read_number 10 (show n) ≡ some n
unfolding show
read_number-show n = read_number-show_from (suc n) n (omega arith)

read_unsigned-IsDigit : (s : Text) → All IsDigit s → read_unsigned s ≡ read_number 10 s
unfolding read_unsigned
read_unsigned-IsDigit [] h = refl
read_unsigned-IsDigit (c ∷ []) h = refl
read_unsigned-IsDigit (c ∷ x ∷ s) h = ground (arith, h.0, h.1.0)

parse_int-IsDigit : (s : Text) → All IsDigit s → parse_int s ≡ positive (read_number 10 s)
unfolding parse_int
parse_int-IsDigit [] h = refl
parse_int-IsDigit (c ∷ s) h = ground (arith, h.0, read_unsigned-IsDigit (c ∷ s) h)

-- Reading a number that was printed gives it back.
pub parse_int-show_ℤ : (n : ℤ) → parse_int (show_ℤ n) ≡ some n
unfolding show_ℤ parse_int positive negate ◌-ℤ◌
parse_int-show_ℤ (pos n) =
    parse_int-IsDigit (show n) (show-IsDigit n) ∙ rw (read_number-show n) refl
parse_int-show_ℤ (negsuc n) =
    rw (read_unsigned-IsDigit (show (suc n)) (show-IsDigit (suc n)), read_number-show (suc n))
      (ground arith)

-- Two numbers are printed alike only if they are one.
pub show-ne : (a b : ℕ) → a ≢ b → text_eq (show a) (show b) ≡ false
show-ne a b h = ground (
  arith,
  text_eq_iff (show a) (show b),
  ap (read_number 10) {x = show a} {y = show b},
  read_number-show a,
  read_number-show b,
)

-- A printed number does not begin with a letter.
IsDigit-ne : (s : Text) (c : ℕ) (t : Text) → All IsDigit s → 57 < c → text_eq s (c ∷ t) ≡ false
unfolding text_eq
IsDigit-ne [] c t h k = refl
IsDigit-ne (x ∷ s) c t h k = ground (arith, h.0)

pub show-ne_word : (n c : ℕ) (t : Text) → 57 < c → text_eq (show n) (c ∷ t) ≡ false
show-ne_word n c t h = IsDigit-ne (show n) c t (show-IsDigit n) h

IsDigit-IsFree : (c : ℕ) (s : Text) → (c < 48) ⊎ (57 < c) → All IsDigit s → IsFree c s
IsDigit-IsFree c [] h k = refl
IsDigit-IsFree c (x ∷ s) h k = ground (arith, k.0, IsDigit-IsFree c s h k.1)

pub show-IsFree : (c n : ℕ) → (c < 48) ⊎ (57 < c) → IsFree c (show n)
show-IsFree c n h = IsDigit-IsFree c (show n) h (show-IsDigit n)

pub word-ne_show : (n c : ℕ) (t : Text) → 57 < c → text_eq (c ∷ t) (show n) ≡ false
word-ne_show n c t h =
    ground (arith, text_eq_iff (c ∷ t) (show n), text_eq_iff (show n) (c ∷ t), show-ne_word n c t h)

append-ne_nil : (s : Text) (c : ℕ) → text_eq (s ++ c ∷ []) [] ≡ false
unfolding text_eq
append-ne_nil [] c = refl
append-ne_nil (x ∷ s) c = refl

show_from-ne_nil : (fuel n : ℕ) → text_eq (show_from (suc fuel) n) [] ≡ false
unfolding show_from text_eq
show_from-ne_nil fuel n = elim (Bool-cases (ltb n 10)) [
  | inl e ↦ rw (e, show_from) refl
  | inr e ↦ rw (e, show_from) (append-ne_nil (show_from fuel (n / 10)) (48 + n % 10))
]

pub show-ne_nil : (n : ℕ) → text_eq (show n) [] ≡ false
unfolding show
show-ne_nil n = show_from-ne_nil n n
