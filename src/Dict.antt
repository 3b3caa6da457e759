-- ===== src/Dict.antt =====
-- Rust's `HashMap`, as an association list in which a key stands once. The order of the entries,
-- which Rust leaves open, is the order of first insertion.
use mathlib.Core.Path.{subst₂}
use voirc.Base.{
  Bool-cases, inl, inr, ◌+◌, ◌≤◌, ◌≡◌, refl, Bool, true, false, Option, none, some, List, [], ◌∷◌,
  arith, Eq, eqb, eqb_iff, if◌then◌else◌, length,
}

abbrev pub Dict {ℓ κ} : Type ℓ → Type κ → Type (ℓ ⊔ κ)
Dict K V = List (K × V)

module _ {ℓ κ} {K : Type ℓ} {V : Type κ} ⦃e : Eq K⦄ where
  -- `map.get(k)`
  unfoldable pub get : Dict K V → K → Option V
  get [] k = none
  get ((j, v) ∷ m) k = if eqb j k then some v else get m k

  -- `map.insert(k, v)`: the entry of a key that is there is replaced.
  unfoldable pub insert : Dict K V → K → V → Dict K V
  insert [] k v = (k, v) ∷ []
  insert ((j, w) ∷ m) k v = if eqb j k then (k, v) ∷ m else (j, w) ∷ insert m k v

  -- `map.remove(k)`
  unfoldable pub remove : Dict K V → K → Dict K V
  remove [] k = []
  remove ((j, v) ∷ m) k = let rest = remove m k in if eqb j k then rest else (j, v) ∷ rest

  -- A loop over `map.iter_mut()` that changes each value.
  unfoldable pub map_values : (K → V → V) → Dict K V → Dict K V
  map_values f [] = []
  map_values f ((j, v) ∷ m) = (j, f j v) ∷ map_values f m

  pub get-insert :
      (m : Dict K V) (k : K) (v : V) (j : K)
      → get (insert m k v) j ≡ (if eqb k j then some v else get m j)
  unfolding get insert
  get-insert [] k v j = refl
  get-insert ((i, w) ∷ m) k v j =
      ground (arith, eqb_iff i k, eqb_iff i j, eqb_iff k j, get-insert m k v j)

  pub get-remove :
      (m : Dict K V) (k j : K) → get (remove m k) j ≡ (if eqb k j then none else get m j)
  unfolding get remove
  get-remove [] k j = ground arith
  get-remove ((i, w) ∷ m) k j =
      ground (arith, eqb_iff i k, eqb_iff i j, eqb_iff k j, get-remove m k j)

-- `Option::map`, for the law of `map_values`.
abbrev pub mapped {ℓ κ} : {A : Type ℓ} {B : Type κ} → (A → B) → Option A → Option B
mapped f none = none
mapped f (some a) = some (f a)

-- `unwrap_or`, `unwrap_or_default`
abbrev pub or_else {ℓ} : {A : Type ℓ} → Option A → A → A
or_else none d = d
or_else (some a) d = a

abbrev pub is_some {ℓ} : {A : Type ℓ} → Option A → Bool
is_some none = false
is_some (some a) = true

-- `and_then`
abbrev pub and_then {ℓ κ} : {A : Type ℓ} {B : Type κ} → Option A → (A → Option B) → Option B
and_then none f = none
and_then (some a) f = f a

module _ {ℓ κ} {K : Type ℓ} {V : Type κ} ⦃e : Eq K⦄ where
  pub get-map_values :
      (f : K → V → V) (m : Dict K V) (k : K) → get (map_values f m) k ≡ mapped (f k) (get m k)
  unfolding get map_values
  get-map_values f [] k = refl
  get-map_values f ((j, v) ∷ m) k = ground (arith, eqb_iff j k, get-map_values f m k)

  pub length-insert : (m : Dict K V) (k : K) (v : V) → length (insert m k v) ≤ length m + 1
  unfolding insert
  length-insert [] k v = omega arith
  length-insert ((j, w) ∷ m) k v = ground (arith, length-insert m k v)

  pub length-remove : (m : Dict K V) (k : K) → length (remove m k) ≤ length m
  unfolding remove
  length-remove [] k = omega arith
  length-remove ((j, w) ∷ m) k = ground (arith, length-remove m k)

pub ruleset dict_laws = (get-insert, get-remove, get-map_values)

-- A key stands once, as in Rust's map.
abbrev pub HasUniqueKeys {ℓ κ} : {K : Type ℓ} {V : Type κ} ⦃e : Eq K⦄ → Dict K V → Type κ
HasUniqueKeys [] = Unit
HasUniqueKeys ((k, v) ∷ m) = (get m k ≡ none) × HasUniqueKeys m

-- What holds of every entry.
abbrev pub Every {ℓ κ ι} : {K : Type ℓ} {V : Type κ} → (K → V → Type ι) → Dict K V → Type ι
Every P [] = Unit
Every P ((k, v) ∷ m) = P k v × Every P m

module _ {ℓ κ} {K : Type ℓ} {V : Type κ} ⦃e : Eq K⦄ where
  pub insert-HasUniqueKeys :
      (m : Dict K V) (k : K) (v : V) → HasUniqueKeys m → HasUniqueKeys (insert m k v)
  unfolding insert get
  insert-HasUniqueKeys [] k v u = (refl, tt)
  insert-HasUniqueKeys ((j, w) ∷ m) k v u =
      ground (arith, eqb_iff j k, eqb_iff k j, insert-HasUniqueKeys m k v u.1, get-insert m k v j)

  pub remove-HasUniqueKeys : (m : Dict K V) (k : K) → HasUniqueKeys m → HasUniqueKeys (remove m k)
  unfolding remove get
  remove-HasUniqueKeys [] k u = tt
  remove-HasUniqueKeys ((j, w) ∷ m) k u =
      ground (arith, eqb_iff j k, remove-HasUniqueKeys m k u.1, get-remove m k j)

  pub map_values-HasUniqueKeys :
      (f : K → V → V) (m : Dict K V) → HasUniqueKeys m → HasUniqueKeys (map_values f m)
  unfolding map_values get
  map_values-HasUniqueKeys f [] u = tt
  map_values-HasUniqueKeys f ((j, w) ∷ m) u =
      (ground (arith, get-map_values f m j), map_values-HasUniqueKeys f m u.1)

module _ {ℓ κ ι} {K : Type ℓ} {V : Type κ} ⦃e : Eq K⦄ (P : K → V → Type ι) where
  pub Every-insert : (m : Dict K V) (k : K) (v : V) → Every P m → P k v → Every P (insert m k v)
  unfolding insert
  Every-insert [] k v h p = (p, tt)
  Every-insert ((j, w) ∷ m) k v h p = ground (arith, Every-insert m k v h.1 p)

  pub Every-remove : (m : Dict K V) (k : K) → Every P m → Every P (remove m k)
  unfolding remove
  Every-remove [] k h = tt
  Every-remove ((j, w) ∷ m) k h = ground (arith, Every-remove m k h.1)

  pub Every-map_values :
      (f : K → V → V) (m : Dict K V)
      → ((k : K) (v : V) → P k v → P k (f k v))
      → Every P m
      → Every P (map_values f m)
  unfolding map_values
  Every-map_values f [] g h = tt
  Every-map_values f ((j, w) ∷ m) g h = (g j w h.0, Every-map_values f m g h.1)

module _ {ℓ κ ι} {K : Type ℓ} {V : Type κ} ⦃e : Eq K⦄ (P : K → V → Type ι) where
  pub Every-get : (m : Dict K V) (k : K) (v : V) → Every P m → get m k ≡ some v → P k v
  unfolding get
  Every-get [] k v h g = cc
  Every-get ((j, w) ∷ m) k v h g = elim (Bool-cases (eqb j k)) [
    | inl same ↦
        let found : some w ≡ some v = rw same at g in
        let value : w ≡ v = cc found in subst₂ P ((eqb_iff j k).0 same) value h.0
    | inr other ↦ Every-get m k v h.1 (rw other at g)
  ]
