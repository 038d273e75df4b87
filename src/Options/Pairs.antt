-- ===== src/Options/Pairs.antt =====
-- Which maps the lists of "key:value" texts give.
use ekg.Prelude.{
  ◌≡◌, refl, ◌∙◌, String, Option, none, some, List, [], ◌∷◌, String_key, ◌==◌, if◌then◌else◌, arith,
  inl, inr, ◌⊎◌, orelse, ◌≢◌, All,
}
use ekg.Prelude.StdMap.{StdMap, find, insert, find-insert}
use ekg.Common.Outcome.{Outcome, ok, throws, runtime_error}
use ekg.Options.{add_pair, add_pairs, parse_kv_custom_param}

module _ (split : String → List String) where
  -- A text of two pieces.
  abbrev pub IsPair : String → Type 0
  IsPair kv = (k : String) × (v : String) × (split kv ≡ k ∷ v ∷ [])

  abbrev pub pair_value : String → List String → Option String
  pair_value k (j ∷ v ∷ []) = if j == k then some v else none
  pair_value k _ = none

  -- The value of the first pair with a key.
  abbrev pub first_value : String → List String → Option String
  first_value k [] = none
  first_value k (kv ∷ kvs) = orelse (pair_value k (split kv)) (first_value k kvs)

  bad_pair : Outcome (StdMap String String)
  bad_pair = throws (runtime_error "Bad ky paramter")

  pieces_cases :
      (ps : List String)
      → ((k : String) × (v : String) × (ps ≡ k ∷ v ∷ []))
        ⊎ (((m : StdMap String String) → add_pair split ps m ≡ bad_pair)
            × ((k v : String) → ps ≢ k ∷ v ∷ []))
  unfolding add_pair bad_pair
  pieces_cases [] = inr (λ m. refl, λ k v e. cc)
  pieces_cases (a ∷ []) = inr (λ m. refl, λ k v e. cc)
  pieces_cases (a ∷ b ∷ []) = inl (a, b, refl)
  pieces_cases (a ∷ b ∷ c ∷ ps) = inr (λ m. refl, λ k v e. cc)

  Adds : List String → StdMap String String → Outcome (StdMap String String) → Type 0
  Adds kvs m r =
      ((m' : StdMap String String) × (r ≡ ok m')
        × All IsPair kvs
        × ((j : String) → find j m' ≡ orelse (find j m) (first_value j kvs)))
      ⊎ ((r ≡ bad_pair) × (All IsPair kvs → ⊥))

  add_pairs-Adds :
      (kvs : List String) (m : StdMap String String) → Adds kvs m (add_pairs split kvs m)
  unfolding add_pairs Adds bad_pair
  add_pairs-Adds [] m = inl (m, refl, tt, λ j. ground arith)
  add_pairs-Adds (kv ∷ kvs) m = elim (pieces_cases (split kv)) [
    | inr (bad, never) ↦ inr (rw (bad m), λ h. never h.0.0 h.0.1 h.0.2)
    | inl (k, v, e) ↦ elim (add_pairs-Adds kvs (insert k v m).0) [
      | inl (m', r, pairs, lookups) ↦ inl (
        m',
        rw (e, add_pair) r,
        ((k, v, e), pairs),
        λ j. lookups j ∙ rw (find-insert k j v m, e) (ground arith),
      )
      | inr (r, never) ↦ inr (rw (e, add_pair) r, λ h. never h.1)
    ]
  ]

  -- `parseKVCustomParam` returns exactly when each text splits into two pieces; then a key has the
  -- value of its first pair. Otherwise it throws "Bad ky paramter".
  pub parse_kv-first_value :
      (kvs : List String)
      → ((m : StdMap String String) × (parse_kv_custom_param split kvs ≡ ok m)
          × All IsPair kvs
          × ((j : String) → find j m ≡ first_value j kvs))
        ⊎ ((parse_kv_custom_param split kvs ≡ throws (runtime_error "Bad ky paramter"))
            × (All IsPair kvs → ⊥))
  unfolding parse_kv_custom_param Adds bad_pair find
  parse_kv-first_value kvs = add_pairs-Adds kvs []
