-- ===== src/Prelude/Object.antt =====
-- JavaScript objects used as maps: an association list in the order of insertion, which is the
-- order of `for ... in` where no key is an array index.
use istatd.Prelude.{
  ℕ, Eq, same, true, false, Option, none, some, List, [], ◌∷◌, ◌≡◌, refl, arith, if◌then◌else◌,
  contains, ◌==◌, ltb, ◌<◌, ◌≤◌, ◌+◌, ◌++◌,
}

abbrev pub Object {ℓ κ} : Type ℓ → Type κ → Type (ℓ ⊔ κ)
Object K V = List (K × V)

module _ {ℓ} {K : Type ℓ} ⦃e : Eq K⦄ where
  -- No key stands twice.
  abbrev pub IsDistinct : List K → Type 0
  IsDistinct [] = Unit
  IsDistinct (k ∷ ks) = (contains ks k ≡ false) × IsDistinct ks

  pub contains-append :
      (xs : List K) (x y : K)
      → contains (xs ++ x ∷ []) y ≡ (if same x y then true else contains xs y)
  contains-append [] x y = ground arith
  contains-append (z ∷ xs) x y = ground (arith, contains-append xs x y)

  pub IsDistinct-append :
      (xs : List K) (x : K) → contains xs x ≡ false → IsDistinct xs → IsDistinct (xs ++ x ∷ [])
  IsDistinct-append [] x h d = ground arith
  IsDistinct-append (z ∷ xs) x h d =
      ground (arith, e.beq_iff x z, e.beq_iff z x, contains-append xs x z, IsDistinct-append xs x)

module _ {ℓ κ} {K : Type ℓ} {V : Type κ} where
  -- The keys, in the order of `for ... in`.
  abbrev pub keys : Object K V → List K
  keys [] = []
  keys ((k, _) ∷ m) = k ∷ keys m

  abbrev pub values : Object K V → List V
  values [] = []
  values ((_, v) ∷ m) = v ∷ values m

module _ {ℓ κ} {K : Type ℓ} {V : Type κ} ⦃e : Eq K⦄ where
  -- `m[k]`; `none` is `undefined`.
  unfoldable pub get : K → Object K V → Option V
  get k [] = none
  get k ((j, v) ∷ m) = if same j k then some v else get k m

  -- `m[k] = v`: a new key goes to the end.
  unfoldable pub put : K → V → Object K V → Object K V
  put k v [] = (k, v) ∷ []
  put k v ((j, w) ∷ m) = if same j k then (j, v) ∷ m else (j, w) ∷ put k v m

  -- `delete m[k]`
  unfoldable pub del : K → Object K V → Object K V
  del k [] = []
  del k ((j, w) ∷ m) = if same j k then m else (j, w) ∷ del k m

module _ {ℓ κ} {K : Type ℓ} {V : Type κ} ⦃e : Eq K⦄ where
  pub get-put :
      (k j : K) (v : V) (m : Object K V)
      → get j (put k v m) ≡ (if same k j then some v else get j m)
  unfolding get put
  get-put k j v [] = refl
  get-put k j v ((i, w) ∷ m) =
      ground (arith, e.beq_iff k j, e.beq_iff i k, e.beq_iff i j, get-put k j v m)

  pub contains-keys-put :
      (k j : K) (v : V) (m : Object K V)
      → contains (keys (put k v m)) j ≡ (if same k j then true else contains (keys m) j)
  unfolding put
  contains-keys-put k j v [] = ground arith
  contains-keys-put k j v ((i, w) ∷ m) =
      ground (arith, e.beq_iff k j, e.beq_iff i k, e.beq_iff i j, contains-keys-put k j v m)

  pub keys-put-IsDistinct :
      (k : K) (v : V) (m : Object K V) → IsDistinct (keys m) → IsDistinct (keys (put k v m))
  unfolding put
  keys-put-IsDistinct k v [] h = ground arith
  keys-put-IsDistinct k v ((i, w) ∷ m) h =
      ground
        (arith, e.beq_iff i k, e.beq_iff k i, contains-keys-put k i v m, keys-put-IsDistinct k v m)

  pub contains-keys-del :
      (k j : K) (m : Object K V)
      → IsDistinct (keys m)
      → contains (keys (del k m)) j ≡ (if same k j then false else contains (keys m) j)
  unfolding del
  contains-keys-del k j [] h = ground arith
  contains-keys-del k j ((i, w) ∷ m) h =
      ground (arith, e.beq_iff k j, e.beq_iff i k, e.beq_iff i j, contains-keys-del k j m)

  pub keys-del-IsDistinct :
      (k : K) (m : Object K V) → IsDistinct (keys m) → IsDistinct (keys (del k m))
  unfolding del
  keys-del-IsDistinct k [] h = tt
  keys-del-IsDistinct k ((i, w) ∷ m) h =
      ground (arith, e.beq_iff k i, e.beq_iff i k, contains-keys-del k i m, keys-del-IsDistinct k m)

  pub get-eq-none_iff : (k : K) (m : Object K V) → get k m ≡ none → contains (keys m) k ≡ false
  unfolding get
  get-eq-none_iff k [] h = refl
  get-eq-none_iff k ((i, w) ∷ m) h = ground (arith, get-eq-none_iff k m)

module _ {κ} {V : Type κ} where
  -- `m[k] = v` at a whole number: `for ... in` visits such keys in ascending order.
  unfoldable pub put_index : ℕ → V → Object ℕ V → Object ℕ V
  put_index k v [] = (k, v) ∷ []
  put_index k v ((j, w) ∷ m) =
      if j == k
      then (j, v) ∷ m
      else (if ltb k j then (k, v) ∷ (j, w) ∷ m else (j, w) ∷ put_index k v m)

  abbrev pub KeysBelow : ℕ → Object ℕ V → Type 0
  KeysBelow n [] = Unit
  KeysBelow n ((j, _) ∷ m) = (j < n) × KeysBelow n m

  pub KeysBelow-mono : (a b : ℕ) (m : Object ℕ V) → a ≤ b → KeysBelow a m → KeysBelow b m
  KeysBelow-mono a b [] h k = tt
  KeysBelow-mono a b ((j, _) ∷ m) h k = (omega arith, KeysBelow-mono a b m h k.1)

  -- A key above all others goes to the end.
  pub values-put_index :
      (k : ℕ) (v : V) (m : Object ℕ V)
      → KeysBelow k m
      → values (put_index k v m) ≡ values m ++ v ∷ []
  unfolding put_index
  values-put_index k v [] h = refl
  values-put_index k v ((j, w) ∷ m) h = ground (arith, values-put_index k v m)

  pub put_index-KeysBelow :
      (k : ℕ) (v : V) (m : Object ℕ V) → KeysBelow k m → KeysBelow (k + 1) (put_index k v m)
  unfolding put_index
  put_index-KeysBelow k v [] h = ground arith
  put_index-KeysBelow k v ((j, w) ∷ m) h = ground (arith, put_index-KeysBelow k v m)
