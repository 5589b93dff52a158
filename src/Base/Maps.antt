-- ===== src/Base/Maps.antt =====
-- `std::map` and `std::unordered_map` with number keys, as association lists in the order in which
-- the keys are visited.
use Prim.Native.Nat.{ℕ}
use mathlib.Core.Path.{◌≡◌, refl, ap, ◌∙◌}
use mathlib.Core.List.{List, [], ◌∷◌}
use mathlib.Core.Option.{Option, none, some}
use native.Mathlib.Omega.{arith}
use xx_chat.Base.Options.{found, found_cases}
use xx_chat.Base.Tests.{ltb, ◌==◌, if◌then◌else◌}

module _ {ℓ} {V : Type ℓ} where
  unfoldable pub lookup : ℕ → List (ℕ × V) → Option V
  lookup k [] = none
  lookup k ((j, v) ∷ m) = if j == k then some v else lookup k m

  -- A new node, before the first larger key.
  unfoldable pub place : ℕ → V → List (ℕ × V) → List (ℕ × V)
  place k v [] = (k, v) ∷ []
  place k v ((j, w) ∷ m) = if ltb k j then (k, v) ∷ (j, w) ∷ m else (j, w) ∷ place k v m

  -- A change through the pointer that `map.find(k)` gives, if it gives one.
  unfoldable pub update : ℕ → (V → V) → List (ℕ × V) → List (ℕ × V)
  update k f [] = []
  update k f ((j, w) ∷ m) = if j == k then (j, f w) ∷ m else (j, w) ∷ update k f m

  -- `map[k] = v`
  unfoldable pub put : ℕ → V → List (ℕ × V) → List (ℕ × V)
  put k v m = found (lookup k m) (place k v m) (λ w. update k (λ u. v) m)

  -- `map.insert({k, v})` keeps the value of a key that is there.
  unfoldable pub insert : ℕ → V → List (ℕ × V) → List (ℕ × V)
  insert k v m = found (lookup k m) (place k v m) (λ w. m)

  -- `map.erase(map.find(k))`
  unfoldable pub erase_found : ℕ → List (ℕ × V) → List (ℕ × V)
  erase_found k [] = []
  erase_found k ((j, w) ∷ m) = if j == k then m else (j, w) ∷ erase_found k m

  -- Every value of a map.
  abbrev pub Each : (V → Type 0) → List (ℕ × V) → Type 0
  Each P [] = Unit {0}
  Each P ((k, v) ∷ m) = P v × Each P m

  -- `map.erase(k)`
  unfoldable pub erase : ℕ → List (ℕ × V) → List (ℕ × V)
  erase k [] = []
  erase k ((j, w) ∷ m) = if j == k then erase k m else (j, w) ∷ erase k m

  pub lookup-erase :
      (k j : ℕ) (m : List (ℕ × V)) → lookup j (erase k m) ≡ (if k == j then none else lookup j m)
  unfolding lookup erase
  lookup-erase k j [] = ground arith
  lookup-erase k j ((i, w) ∷ m) = ground (arith, lookup-erase k j m)

  pub lookup-update :
      (k : ℕ) (f : V → V) (m : List (ℕ × V)) (v : V)
      → lookup k m ≡ some v
      → lookup k (update k f m) ≡ some (f v)
  unfolding lookup update
  lookup-update k f [] v h = cc
  lookup-update k f ((i, w) ∷ m) v h = ground (arith, lookup-update k f m v)

  -- A change at one key.
  pub lookup-update-found :
      (k j : ℕ) (f : V → V) (m : List (ℕ × V))
      → lookup j (update k f m) ≡ found (lookup j m) none (λ v. some (if k == j then f v else v))
  unfolding lookup update
  lookup-update-found k j f [] = refl
  lookup-update-found k j f ((i, w) ∷ m) = ground (arith, lookup-update-found k j f m)

  pub insert-missing :
      (k : ℕ) (v : V) (m : List (ℕ × V)) → lookup k m ≡ none → insert k v m ≡ place k v m
  unfolding insert
  insert-missing k v m h = rw h

  pub insert-found : (k : ℕ) (v w : V) (m : List (ℕ × V)) → lookup k m ≡ some w → insert k v m ≡ m
  unfolding insert
  insert-found k v w m h = rw h

  pub lookup-place :
      (k j : ℕ) (v : V) (m : List (ℕ × V))
      → lookup k m ≡ none
      → lookup j (place k v m) ≡ (if k == j then some v else lookup j m)
  unfolding lookup place
  lookup-place k j v [] h = refl
  lookup-place k j v ((i, w) ∷ m) h = ground (arith, lookup-place k j v m)

  pub lookup-changed :
      (k j : ℕ) (v w : V) (m : List (ℕ × V))
      → lookup k m ≡ some w
      → lookup j (update k (λ u. v) m) ≡ (if k == j then some v else lookup j m)
  unfolding lookup update
  lookup-changed k j v w [] h = cc
  lookup-changed k j v w ((i, u) ∷ m) h = ground (arith, lookup-changed k j v w m)

  pub lookup-put :
      (k j : ℕ) (v : V) (m : List (ℕ × V))
      → lookup j (put k v m) ≡ (if k == j then some v else lookup j m)
  unfolding put
  lookup-put k j v m =
      found_cases (λ r. lookup j r ≡ (if k == j then some v else lookup j m)) (lookup k m)
        (lookup-place k j v m) (λ w. lookup-changed k j v w m)

  pub lookup-insert :
      (k : ℕ) (v : V) (m : List (ℕ × V)) → lookup k m ≡ none → lookup k (insert k v m) ≡ some v
  lookup-insert k v m h =
      ap (lookup k) (insert-missing k v m h) ∙ lookup-place k k v m h ∙ ground arith
