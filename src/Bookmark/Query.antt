-- ===== src/Bookmark/Query.antt =====
-- Reading the pairs of a query that was packed up.
use istatd.Prelude.{
  ◌<◌, ◌≡◌, refl, sym, ap, ap₂, ◌∙◌, arith, false, Option, some, List, [], ◌∷◌, ◌++◌, Text, text_eq,
  text_eq_iff, text_eq_instance, All, append_assoc,
}
use istatd.Prelude.Object.{Object, get, put, get-put}
use istatd.Prelude.Words.{split, IsFree, append-IsFree, split-append, split_of_IsFree}
use istatd.Prelude.Digits.{IsDigit}
use istatd.Prelude.Escape.{escape, escape_unit, is_plain, unescape-escape, escape-IsFree}
use istatd.Bookmark.{Func, query, read_pairs, key_of, value_of, func_of}

-- Code units.
abbrev pub IsUnits : Text → Type 0
IsUnits s = All (λ c. c < 65_536) s

pub escape-IsDigit : (s : Text) → All IsDigit s → escape s ≡ s
unfolding escape escape_unit is_plain
escape-IsDigit [] h = refl
escape-IsDigit (c ∷ s) h = ground (arith, escape-IsDigit s h.1, h.0)

-- A pair of the state that is read back.
pub record IsPair (k v : Text) : Type 0 where
  pub plain : escape k ≡ k
  pub key_units : IsUnits k
  pub value_units : IsUnits v
  pub no_func : (f : Option Func) → func_of k f ≡ f

abbrev pub ArePairs : List (Text × Text) → Type 0
ArePairs pairs = All (λ (k, v). IsPair k v) pairs

unfoldable pub puts : List (Text × Text) → Object Text Text → Object Text Text
puts [] args = args
puts ((k, v) ∷ pairs) args = puts pairs (put k v args)

split-field :
    (k v : Text)
    → IsUnits k
    → IsUnits v
    → split b'=' (escape k ++ b'=' ∷ escape v) ≡ escape k ∷ escape v ∷ []
unfolding is_plain
split-field k v hk hv =
    split-append b'=' (escape k) (escape v) (escape-IsFree b'=' k refl (omega arith) hk)
    ∙ ap (escape k ∷◌)
        (split_of_IsFree b'=' (escape v) (escape-IsFree b'=' v refl (omega arith) hv))

field-IsFree : (k v : Text) → IsUnits k → IsUnits v → IsFree b'&' (escape k ++ b'=' ∷ escape v)
unfolding is_plain
field-IsFree k v hk hv =
    append-IsFree b'&' (escape k) (b'=' ∷ escape v) (escape-IsFree b'&' k refl (omega arith) hk)
      (escape-IsFree b'&' v refl (omega arith) hv)

-- One pair of the loop.
read_pairs-cons :
    (k v : Text) (words : List Text) (f : Option Func) (args : Object Text Text)
    → IsPair k v
    → read_pairs ((escape k ++ b'=' ∷ escape v) ∷ words) f args ≡ read_pairs words f (put k v args)
unfolding read_pairs
read_pairs-cons k v words f args h =
    ap (λ kv. read_pairs words (func_of (key_of kv) f) (put (key_of kv) (value_of kv) args))
      (split-field k v h.key_units h.value_units)
    ∙ ap₂ (λ key value. read_pairs words (func_of key f) (put key value args)) h.plain
        (unescape-escape v h.value_units)
    ∙ ap (λ g. read_pairs words g (put k v args)) (h.no_func f)

pub read_pairs-query :
    (pairs : List (Text × Text)) (rest : Text) (f : Option Func) (args : Object Text Text)
    → ArePairs pairs
    → read_pairs (split b'&' (query pairs ++ rest)) f args
      ≡ read_pairs (split b'&' rest) f (puts pairs args)
unfolding query puts
read_pairs-query [] rest f args h = refl
read_pairs-query ((k, v) ∷ pairs) rest f args h =
    let field = escape k ++ b'=' ∷ escape v in
    ap (λ words. read_pairs words f args)
      (ap (split b'&') (append_assoc field (b'&' ∷ query pairs) rest)
        ∙ split-append b'&' field (query pairs ++ rest)
            (field-IsFree k v h.0.key_units h.0.value_units))
    ∙ read_pairs-cons k v (split b'&' (query pairs ++ rest)) f args h.0
    ∙ read_pairs-query pairs rest f (put k v args) h.1

pub query-append : (ps qs : List (Text × Text)) → query (ps ++ qs) ≡ query ps ++ query qs
unfolding query
query-append [] qs = refl
query-append ((k, v) ∷ ps) qs =
    ap (λ t. (escape k ++ b'=' ∷ escape v) ++ b'&' ∷ t) (query-append ps qs)
    ∙ sym (append_assoc (escape k ++ b'=' ∷ escape v) (b'&' ∷ query ps) (query qs))

pub puts-append :
    (ps qs : List (Text × Text)) (args : Object Text Text)
    → puts (ps ++ qs) args ≡ puts qs (puts ps args)
unfolding puts
puts-append [] qs args = refl
puts-append ((k, v) ∷ ps) qs args = puts-append ps qs (put k v args)

-- The pairs say nothing of a key.
abbrev pub AreOther : Text → List (Text × Text) → Type 0
AreOther j pairs = All (λ (k, _). text_eq k j ≡ false) pairs

pub get-puts-other :
    (j : Text) (pairs : List (Text × Text)) (args : Object Text Text)
    → AreOther j pairs
    → get j (puts pairs args) ≡ get j args
unfolding puts
get-puts-other j [] args h = refl
get-puts-other j ((k, v) ∷ pairs) args h =
    get-puts-other j pairs (put k v args) h.1 ∙ get-put k j v args ∙ rw h.0 refl

pub get-put_self : (k v : Text) (args : Object Text Text) → get k (put k v args) ≡ some v
get-put_self k v args = get-put k k v args ∙ rw ((text_eq_iff k k).1 refl) refl
