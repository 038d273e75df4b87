-- ===== src/Prelude/StdMap.antt =====
-- `std::map` as the sources use it: find, insert, operator[], erase, size and the keys in order.
-- The entries stand in the order of their keys, which is the order of an iteration.
use Prim.Native.Nat.{◌+◌}
use mathlib.Core.Path.{◌≡◌, refl}
use mathlib.Core.Bool.{Bool, true, false}
use mathlib.Core.Logic.{inl, inr, ◌↔◌, ◌≢◌}
use mathlib.Core.Option.{Option, none, some, get_or}
use mathlib.Core.List.{List, [], ◌∷◌}
use native.Mathlib.Omega.{arith}
use ekg.Prelude.Tests.{if◌then◌else◌, Key, ◌==◌, ==_refl, Option-cases, orelse}
use ekg.Prelude.Lists.{length, any}

abbrev pub StdMap {ℓ κ} : Type ℓ → Type κ → Type (ℓ ⊔ κ)
StdMap K V = List (K × V)

module _ {ℓ κ} {K : Type ℓ} {V : Type κ} ⦃key : Key K⦄ where
  unfoldable pub find : K → StdMap K V → Option V
  find k [] = none
  find k ((j, v) ∷ m) = if j == k then some v else find k m

  -- A new key goes to its place in the order of the keys.
  unfoldable pub place : K → V → StdMap K V → StdMap K V
  place k v [] = (k, v) ∷ []
  place k v ((j, w) ∷ m) =
      let rest = place k v m in if key.less k j then (k, v) ∷ (j, w) ∷ m else (j, w) ∷ rest

  unfoldable pub replace : K → V → StdMap K V → StdMap K V
  replace k v [] = []
  replace k v ((j, w) ∷ m) =
      let rest = replace k v m in if j == k then (k, v) ∷ m else (j, w) ∷ rest

  -- m[k] = v
  unfoldable pub assign : K → V → StdMap K V → StdMap K V
  unfolding place replace find
  assign k v m = elim (find k m) [ none ↦ place k v m | some w ↦ replace k v m ]

  -- m.insert({k, v}): a key that is there keeps its value; the flag says whether it was new.
  unfoldable pub insert : K → V → StdMap K V → StdMap K V × Bool
  unfolding place find
  insert k v m = elim (find k m) [ none ↦ (place k v m, true) | some w ↦ (m, false) ]

  -- m[k]: a missing key is added with the value-initialised `d`.
  unfoldable pub at : K → V → StdMap K V → V × StdMap K V
  unfolding place find
  at k d m = elim (find k m) [ none ↦ (d, place k d m) | some w ↦ (w, m) ]

  unfoldable pub erase : K → StdMap K V → StdMap K V
  erase k [] = []
  erase k ((j, v) ∷ m) = let rest = erase k m in if j == k then rest else (j, v) ∷ rest

  abbrev pub keys : StdMap K V → List K
  keys [] = []
  keys ((k, v) ∷ m) = k ∷ keys m

  pub find-place :
      (k j : K) (v : V) (m : StdMap K V)
      → find k m ≡ none
      → find j (place k v m) ≡ (if k == j then some v else find j m)
  unfolding find place
  find-place k j v [] h = refl
  find-place k j v ((i, w) ∷ m) h =
      ground (arith, find-place k j v m, key.eq_iff i k, key.eq_iff i j, key.eq_iff k j)

  find-replace :
      (k j : K) (v : V) (m : StdMap K V) {w : V}
      → find k m ≡ some w
      → find j (replace k v m) ≡ (if k == j then some v else find j m)
  unfolding find replace
  find-replace k j v [] h = cc
  find-replace k j v ((i, w) ∷ m) {w = u} h =
      ground (arith, find-replace k j v m {w = u}, key.eq_iff i k, key.eq_iff i j, key.eq_iff k j)

  pub find-assign :
      (k j : K) (v : V) (m : StdMap K V)
      → find j (assign k v m) ≡ (if k == j then some v else find j m)
  unfolding assign
  find-assign k j v m = elim (Option-cases (find k m)) [
    | inl e ↦ rw (e, assign) (find-place k j v m e)
    | inr (w, e) ↦ rw (e, assign) (find-replace k j v m e)
  ]

  -- `insert` leaves the value of a key that is there.
  pub find-insert :
      (k j : K) (v : V) (m : StdMap K V)
      → find j (insert k v m).0 ≡ (if k == j then orelse (find j m) (some v) else find j m)
  unfolding insert
  find-insert k j v m = elim (Option-cases (find k m)) [
    | inl e ↦ rw (e, insert) (ground (arith, find-place k j v m e, key.eq_iff k j))
    | inr (w, e) ↦ rw (e, insert) (ground (arith, key.eq_iff k j))
  ]

  pub find-erase :
      (k j : K) (m : StdMap K V) → find j (erase k m) ≡ (if k == j then none else find j m)
  unfolding find erase
  find-erase k j [] = ground arith
  find-erase k j ((i, w) ∷ m) =
      ground (arith, find-erase k j m, key.eq_iff i k, key.eq_iff i j, key.eq_iff k j)

  pub erase_of_missing : (k : K) (m : StdMap K V) → find k m ≡ none → erase k m ≡ m
  unfolding find erase
  erase_of_missing k [] h = refl
  erase_of_missing k ((i, w) ∷ m) h = ground (arith, erase_of_missing k m)

  erase-place : (k : K) (v : V) (m : StdMap K V) → erase k (place k v m) ≡ erase k m
  unfolding erase place
  erase-place k v [] = ground (arith, ==_refl k)
  erase-place k v ((i, w) ∷ m) = ground (arith, ==_refl k, erase-place k v m)

  erase-replace : (k : K) (v : V) (m : StdMap K V) → erase k (replace k v m) ≡ erase k m
  unfolding erase replace
  erase-replace k v [] = refl
  erase-replace k v ((i, w) ∷ m) = ground (arith, ==_refl k, erase-replace k v m)

  -- Erasing a key undoes what was assigned to it.
  pub erase-assign : (k : K) (v : V) (m : StdMap K V) → erase k (assign k v m) ≡ erase k m
  unfolding assign
  erase-assign k v m = elim (Option-cases (find k m)) [
    | inl e ↦ rw (e, assign) (erase-place k v m)
    | inr (w, e) ↦ rw (e, assign) (erase-replace k v m)
  ]

  pub insert-present :
      (k : K) (v w : V) (m : StdMap K V) → find k m ≡ some w → insert k v m ≡ (m, false)
  unfolding insert
  insert-present k v w m e = rw (e, insert)

  pub insert-absent : (k : K) (v : V) (m : StdMap K V) → find k m ≡ none → (insert k v m).1 ≡ true
  unfolding insert
  insert-absent k v m e = rw (e, insert)

  pub at-eq-get_or : (k : K) (d : V) (m : StdMap K V) → (at k d m).0 ≡ get_or (find k m) d
  unfolding at
  at-eq-get_or k d m = elim (Option-cases (find k m)) [
    | inl e ↦ rw (e, at)
    | inr (w, e) ↦ rw (e, at)
  ]

  pub find-at :
      (k j : K) (d : V) (m : StdMap K V)
      → find j (at k d m).1 ≡ (if k == j then some (get_or (find k m) d) else find j m)
  unfolding at
  find-at k j d m = elim (Option-cases (find k m)) [
    | inl e ↦ rw (e, at) (find-place k j d m e)
    | inr (w, e) ↦ rw (e, at) (ground (arith, key.eq_iff k j))
  ]

  pub length-place : (k : K) (v : V) (m : StdMap K V) → length (place k v m) ≡ length m + 1
  unfolding place
  length-place k v [] = omega arith
  length-place k v ((i, w) ∷ m) = ground (arith, length-place k v m)

  -- A key is among `keys` exactly when `find` finds it.
  pub find_iff_keys :
      (k : K) (m : StdMap K V) → (any (λ j. j == k) (keys m) ≡ true) ↔ (find k m ≢ none)
  unfolding find
  find_iff_keys k [] = (λ h. cc, λ h. absurd (h refl))
  find_iff_keys k ((j, v) ∷ m) = ground (arith, find_iff_keys k m)

pub ruleset map_laws = (find-assign, find-erase)
