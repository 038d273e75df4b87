-- ===== src/Common/Broadcaster.antt =====
-- common/broadcaster.h. A target is a weak pointer to a handler; `is_live w h` says whether the
-- token of `h` is still held in the world `w`, and `call h x w` is the world after `h` has run.
-- A handler may drop tokens and register targets' owners: it acts on the world as it likes.
use ekg.Prelude.{
  ◌≡◌, refl, ap, ◌∙◌, Bool, true, false, List, [], ◌∷◌, ◌++◌, All, All-filter, filter,
  filter-append, if◌then◌else◌,
}

module _ {ℓ κ ι} {H : Type ℓ} {X : Type κ} {W : Type ι} (is_live : W → H → Bool)
    (call : H → X → W → W) where
  -- The new target stands behind those that are there.
  pub register_handler : H → List H → List H
  register_handler h targets = targets ++ h ∷ []

  unfoldable pub purge : W → List H → List H
  purge w targets = filter (is_live w) targets

  -- The loop of `broadcast`: each pointer is locked when its turn comes.
  unfoldable pub deliver : X → List H → W → W
  deliver x [] w = w
  deliver x (h ∷ hs) w = deliver x hs (if is_live w h then call h x w else w)

  unfoldable pub broadcast : X → List H → W → List H × W
  unfolding purge deliver
  broadcast x targets w = (purge w targets, deliver x (purge w targets) w)

  -- All handlers of a list in turn, without a test.
  abbrev pub call_all : X → List H → W → W
  call_all x [] w = w
  call_all x (h ∷ hs) w = call_all x hs (call h x w)

  deliver_live :
      ((h j : H) (x : X) (w : W) → is_live (call h x w) j ≡ is_live w j)
      → (x : X) (hs : List H) (w : W) → All (λ h. is_live w h ≡ true) hs
      → deliver x hs w ≡ call_all x hs w
  unfolding deliver
  deliver_live keep x [] w live = refl
  deliver_live keep x (h ∷ hs) w (l, live) =
      rw l (deliver_live keep x hs (call h x w) (still hs live))
    where
      still :
          (js : List H)
          → All (λ j. is_live w j ≡ true) js
          → All (λ j. is_live (call h x w) j ≡ true) js
      still [] t = tt
      still (j ∷ js) (t, ts) = (keep h j x w ∙ t, still js ts)

  -- If no handler drops a token, a broadcast calls each target whose token is held exactly once,
  -- in the order of registration, calls no other, and forgets the targets with no token.
  pub broadcast-call_all :
      ((h j : H) (x : X) (w : W) → is_live (call h x w) j ≡ is_live w j)
      → (x : X) (targets : List H) (w : W)
      → broadcast x targets w
        ≡ (filter (is_live w) targets, call_all x (filter (is_live w) targets) w)
  unfolding broadcast
  broadcast-call_all keep x targets w =
      ap (λ v. (filter (is_live w) targets, v))
        (deliver_live keep x _ w (All-filter (is_live w) targets))

  -- If no handler drops a token, a handler that was registered last, and whose token is held,
  -- is called last, after the others as without it.
  pub broadcast-register_handler :
      ((h j : H) (x : X) (w : W) → is_live (call h x w) j ≡ is_live w j)
      → (x : X) (targets : List H) (w : W) (h : H) → is_live w h ≡ true
      → (broadcast x (register_handler h targets) w).1 ≡ call h x (broadcast x targets w).1
  unfolding register_handler
  broadcast-register_handler keep x targets w h live =
      ap (λ r. r.1) (broadcast-call_all keep x (targets ++ h ∷ []) w)
      ∙ rw (filter-append (is_live w) targets (h ∷ []), live, broadcast-call_all keep x targets w)
          (last (filter (is_live w) targets) w)
    where
      last : (hs : List H) (v : W) → call_all x (hs ++ h ∷ []) v ≡ call h x (call_all x hs v)
      last [] v = refl
      last (j ∷ js) v = last js (call j x v)

  -- A handler whose token an earlier handler of the same broadcast dropped is not called.
  pub deliver_dropped :
      (x : X) (g h : H) (hs : List H) (w : W)
      → is_live w g ≡ true
      → is_live (call g x w) h ≡ false
      → deliver x (g ∷ h ∷ hs) w ≡ deliver x hs (call g x w)
  unfolding deliver
  deliver_dropped x g h hs w lg dh = rw (lg, dh)
