-- ===== src/Xref/Related.antt =====
-- Which categories are under which.
use istatd.Prelude.{
  ℕ, zero, suc, ◌+◌, ◌-◌, ◌^◌, ltb, ◌≡◌, refl, sym, ap, subst, ◌∙◌, arith, Bool, false, not, ◌||◌,
  ◌&&◌, Option, none, some, List, [], ◌∷◌, Text, text_eq, text_eq_instance, text_eq_iff, contains,
  if◌then◌else◌,
}
use istatd.Prelude.Object.{
  Object, keys, get, put, del, IsDistinct, get-put, contains-keys-put, keys-put-IsDistinct,
  contains-keys-del,
}
use istatd.Prelude.Words.{split}
use istatd.Prelude.Digits.{show}
use istatd.Xref.{
  Xrefs, related_to, relate, relate_each, relate_agents, without_self, compute_xref, index_value,
  is_array_index, count_indices, non_indices, indices, sort_array,
}

-- Some agent names both categories.
abbrev pub together : List (Option Text) → Text → Text → Bool
together [] c d = false
together (none ∷ agents) c d = together agents c d
together (some categories ∷ agents) c d =
    (contains (split b',' categories) c && contains (split b',' categories) d)
    || together agents c d

contains-note :
    (related : Object Text ℕ) (c d : Text)
    → contains (keys (if contains (keys related) c then related else put c 1 related)) d
      ≡ (text_eq c d || contains (keys related) d)
contains-note related c d = ground (arith, contains-keys-put c d 1 related, text_eq_iff c d)

contains-relate :
    (categories : List Text) (related : Object Text ℕ) (d : Text)
    → contains (keys (relate categories related)) d
      ≡ (contains categories d || contains (keys related) d)
unfolding relate
contains-relate [] related d = refl
contains-relate (cat ∷ categories) related d =
    let noted = if contains (keys related) cat then related else put cat 1 related in
    let rest = contains-relate categories noted d in
    let one = contains-note related cat d in ground (arith, rest, one)

relate-IsDistinct :
    (categories : List Text) (related : Object Text ℕ)
    → IsDistinct (keys related)
    → IsDistinct (keys (relate categories related))
unfolding relate
relate-IsDistinct [] related h = h
relate-IsDistinct (cat ∷ categories) related h =
    relate-IsDistinct categories
      (if contains (keys related) cat then related else put cat 1 related)
      (ground (arith, keys-put-IsDistinct cat 1 related h))

related_to-put :
    (c d : Text) (related : Object Text ℕ) (ret : Xrefs)
    → related_to d (put c related ret) ≡ (if text_eq c d then related else related_to d ret)
unfolding related_to
related_to-put c d related ret = ground (arith, get-put c d related ret)

-- Whether one category is under the other.
abbrev pub under : Xrefs → Text → Text → Bool
under ret c d = contains (keys (related_to c ret)) d

under-put :
    (cat : Text) (categories : List Text) (ret : Xrefs) (c d : Text)
    → under (put cat (relate categories (related_to cat ret)) ret) c d
      ≡ ((text_eq cat c && contains categories d) || under ret c d)
under-put cat categories ret c d =
    ap (λ m. contains (keys m) d)
      (related_to-put cat c (relate categories (related_to cat ret)) ret)
    ∙ ground (arith, text_eq_iff cat c, contains-relate categories (related_to cat ret) d)

under-relate_each :
    (todo categories : List Text) (ret : Xrefs) (c d : Text)
    → under (relate_each todo categories ret) c d
      ≡ ((contains todo c && contains categories d) || under ret c d)
unfolding relate_each
under-relate_each [] categories ret c d = refl
under-relate_each (cat ∷ todo) categories ret c d =
    under-relate_each todo categories (put cat (relate categories (related_to cat ret)) ret) c d
    ∙ ground (arith, under-put cat categories ret c d)

under-relate_agents :
    (agents : List (Option Text)) (ret : Xrefs) (c d : Text)
    → under (relate_agents agents ret) c d ≡ (together agents c d || under ret c d)
unfolding relate_agents
under-relate_agents [] ret c d = refl
under-relate_agents (none ∷ agents) ret c d = under-relate_agents agents ret c d
under-relate_agents (some istatd_categories ∷ agents) ret c d =
    let categories = split b',' istatd_categories in
    under-relate_agents agents (relate_each categories categories ret) c d
    ∙ ground (arith, under-relate_each categories categories ret c d)

related_to-without_self :
    (ret : Xrefs) (c : Text)
    → related_to c (without_self ret) ≡ sort_array (del c (related_to c ret))
unfolding related_to without_self get del sort_array count_indices non_indices indices
related_to-without_self [] c = refl
related_to-without_self ((k, related) ∷ ret) c =
    ground (arith, text_eq_iff k c, related_to-without_self ret c)

-- The key is not how some number is written.
abbrev pub IsNoNumeral : Text → Type 0
IsNoNumeral d = (n : ℕ) → text_eq (show n) d ≡ false

is_array_index_of_no_numeral : (d : Text) → IsNoNumeral d → is_array_index d ≡ false
unfolding is_array_index
is_array_index_of_no_numeral d h = read (index_value 0 d)
  where
    read :
        (o : Option ℕ)
        → elim o [ none ↦ false | some n ↦ ltb n (2 ^ 32 - 1) && text_eq (show n) d ] ≡ false
    read none = refl
    read (some n) = ground (arith, h n)

contains-indices :
    (count from : ℕ) (others : Object Text ℕ) (d : Text)
    → IsNoNumeral d
    → contains (keys (indices count from others)) d ≡ contains (keys others) d
unfolding indices
contains-indices zero from others d h = refl
contains-indices (suc count) from others d h =
    ground (arith, h from, contains-indices count (from + 1) others d h)

contains-non_indices :
    (related : Object Text ℕ) (d : Text)
    → is_array_index d ≡ false
    → contains (keys (non_indices related)) d ≡ contains (keys related) d
unfolding non_indices
contains-non_indices [] d h = refl
contains-non_indices ((k, v) ∷ related) d h =
    ground (arith, text_eq_iff k d, contains-non_indices related d h)

-- The sort moves no other key.
contains-sort_array :
    (related : Object Text ℕ) (d : Text)
    → IsNoNumeral d
    → contains (keys (sort_array related)) d ≡ contains (keys related) d
unfolding sort_array
contains-sort_array related d h =
    contains-indices (count_indices related) 0 (non_indices related) d h
    ∙ contains-non_indices related d (is_array_index_of_no_numeral d h)

-- Every inner object has its keys once.
abbrev AreDistinct : Xrefs → Type 0
AreDistinct ret = (c : Text) → IsDistinct (keys (related_to c ret))

relate_each-AreDistinct :
    (todo categories : List Text) (ret : Xrefs)
    → AreDistinct ret
    → AreDistinct (relate_each todo categories ret)
unfolding relate_each
relate_each-AreDistinct [] categories ret h = h
relate_each-AreDistinct (cat ∷ todo) categories ret h =
    let related = relate categories (related_to cat ret) in
    relate_each-AreDistinct todo categories (put cat related ret) (λ c.
      subst (λ m. IsDistinct (keys m)) (sym (related_to-put cat c related ret))
        (ground (arith, relate-IsDistinct categories (related_to cat ret) (h cat), h c)))

relate_agents-AreDistinct :
    (agents : List (Option Text)) (ret : Xrefs)
    → AreDistinct ret
    → AreDistinct (relate_agents agents ret)
unfolding relate_agents
relate_agents-AreDistinct [] ret h = h
relate_agents-AreDistinct (none ∷ agents) ret h = relate_agents-AreDistinct agents ret h
relate_agents-AreDistinct (some istatd_categories ∷ agents) ret h =
    let categories = split b',' istatd_categories in
    relate_agents-AreDistinct agents (relate_each categories categories ret)
      (relate_each-AreDistinct categories categories ret h)

-- A category that is not how a number is written is under another one exactly where the two differ and some agent
-- names both.
pub under-compute_xref :
    (agents : List (Option Text)) (c d : Text)
    → IsNoNumeral d
    → under (compute_xref agents) c d ≡ (not (text_eq c d) && together agents c d)
unfolding compute_xref get
under-compute_xref agents c d h =
    let ret = relate_agents agents [] in
    ap (λ m. contains (keys m) d) (related_to-without_self ret c)
    ∙ contains-sort_array (del c (related_to c ret)) d h
    ∙ contains-keys-del c d (related_to c ret) (relate_agents-AreDistinct agents [] (λ c. tt) c)
    ∙ ground (arith, under-relate_agents agents [] c d)
