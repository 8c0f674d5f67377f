-- ===== src/Filter/Shown.antt =====
-- The counters that the tree shows for a pattern.
use istatd.Prelude.{
  Bool, true, false, ◌&&◌, Option, some, List, [], ◌∷◌, ◌≡◌, ◌↔◌, ◌⊎◌, inl, inr, ap, Text, arith,
  All, Bool-cases,
}
use istatd.Prelude.Words.{split}
use istatd.Tree.{Counter, as_counter_tree}
use istatd.Filter.{keep_matching, render}
use istatd.Filter.Matching.{IsInLine}
use istatd.Filter.Wildcards.{IsPattern, InOrder, compile-InOrder}

abbrev pub IsAmong : Counter → List Counter → Type 0
IsAmong counter [] = true ≡ false
IsAmong counter (c ∷ counters) = (counter ≡ c) ⊎ IsAmong counter counters

module _ (found : Text → Bool) (counter : Counter) where
  kept_cases :
      (c : Counter) (counters : List Counter)
      → (c.is_leaf && found c.name) ≡ true
      → IsAmong counter (keep_matching found (c ∷ counters))
      → (counter ≡ c) ⊎ IsAmong counter (keep_matching found counters)
  unfolding keep_matching
  kept_cases c counters e m = rw e at m

  kept-IsAmong :
      (counters : List Counter)
      → IsAmong counter (keep_matching found counters)
      → IsAmong counter counters × (counter.is_leaf ≡ true) × (found counter.name ≡ true)
  unfolding keep_matching
  kept-IsAmong [] m = cc
  kept-IsAmong (c ∷ counters) m = elim (Bool-cases (c.is_leaf && found c.name)) [
    | inl e ↦ elim (kept_cases c counters e m) [
      | inl here ↦ (inl here, ground arith, ground arith)
      | inr later ↦
          let (among, is_leaf, name) = kept-IsAmong counters later in (inr among, is_leaf, name)
    ]
    | inr e ↦
        let (among, is_leaf, name) = kept-IsAmong counters (rw e at m) in (inr among, is_leaf, name)
  ]

  IsAmong-kept :
      (counters : List Counter)
      → IsAmong counter counters
      → counter.is_leaf ≡ true
      → found counter.name ≡ true
      → IsAmong counter (keep_matching found counters)
  unfolding keep_matching
  IsAmong-kept [] m is_leaf name = m
  IsAmong-kept (c ∷ counters) (inl e) is_leaf name =
      ground (arith, ap (λ (x : Counter). x.is_leaf) e, ap (λ (x : Counter). found x.name) e)
  IsAmong-kept (c ∷ counters) (inr m) is_leaf name = elim (Bool-cases (c.is_leaf && found c.name)) [
    | inl e ↦ rw e (inr (IsAmong-kept counters m is_leaf name))
    | inr e ↦ rw e (IsAmong-kept counters m is_leaf name)
  ]

module _ (regexp : Text → Option (Text → Bool)) (sort_by_name : List Counter → List Counter) where
  -- For a pattern of plain text and stars the tree always comes, and it is that of a list, sorted, in which a
  -- counter whose name has no line end stands exactly when it is a leaf of the server's list and the texts
  -- between the stars stand in its name in their order, a dot of the pattern for any character.
  pub render-InOrder :
      (proto_pat : Text) (matching_names : List Counter) (counter : Counter)
      → IsPattern proto_pat
      → All IsInLine counter.name
      → (kept : List Counter) × (render regexp sort_by_name proto_pat matching_names
          ≡ some (as_counter_tree (sort_by_name kept)))
        × (IsAmong counter kept ↔ (
            IsAmong counter matching_names
            × (counter.is_leaf ≡ true)
            × InOrder (split b'*' proto_pat) counter.name))
  unfolding render
  render-InOrder proto_pat matching_names counter p h =
      let (found, compiled, searched) = compile-InOrder regexp proto_pat counter.name p h in
      (
        keep_matching found matching_names,
        rw compiled,
        (
          λ m.
              let (among, is_leaf, name) = kept-IsAmong found counter matching_names m in
              (among, is_leaf, searched.0 name),
          λ (among, is_leaf, io).
              IsAmong-kept found counter matching_names among is_leaf (searched.1 io),
        ),
      )
