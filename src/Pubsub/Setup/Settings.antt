-- ===== src/Pubsub/Setup/Settings.antt =====
-- What a sequence of settings leaves.
use ekg.Prelude.{◌≡◌, refl, String, none, some, List, [], ◌∷◌, ◌++◌, inl, inr, ◌⊎◌, Option-cases}
use ekg.Common.Outcome.{ok, throws, runtime_error}
use ekg.Pubsub.Setup.{SettingValue, KafkaConf, checked, apply_settings, creation_error}

module _ {W : Type 0} (conf : KafkaConf W) where
  open conf use {set, make}

  -- The world after these settings.
  abbrev pub set_each : List (String × SettingValue) → W → W
  set_each [] w = w
  set_each ((key, value) ∷ rest) w = set_each rest (set key value w).1

  -- The settings are made in their order. Either all are taken, and the client is made last; or
  -- the first that is refused, or the factory, ends the sequence with a runtime_error that has the
  -- library's text.
  pub apply_settings_cases :
      (settings : List (String × SettingValue)) (w : W)
      → ((before : List (String × SettingValue)) × (key : String) × (value : SettingValue)
          × (after : List (String × SettingValue)) × (errstr : String) × (settings
              ≡ before ++ (key, value) ∷ after)
          × ((set key value (set_each before w)).0 ≡ some errstr)
          × (apply_settings conf settings w ≡ (
            throws (runtime_error (creation_error errstr)),
            (set key value (set_each before w)).1,
          )))
        ⊎ (((errstr : String) × ((make (set_each settings w)).0 ≡ some errstr)
              × (apply_settings conf settings w ≡ (
                throws (runtime_error (creation_error errstr)),
                (make (set_each settings w)).1,
              )))
            ⊎ (((make (set_each settings w)).0 ≡ none)
                × (apply_settings conf settings w ≡ (ok tt, (make (set_each settings w)).1))))
  unfolding apply_settings checked
  apply_settings_cases [] w = elim (Option-cases (make w).0) [
    | inl e ↦ inr (inr (e, rw e))
    | inr (errstr, e) ↦ inr (inl (errstr, e, rw e))
  ]
  apply_settings_cases ((key, value) ∷ rest) w = elim (Option-cases (set key value w).0) [
    | inr (errstr, e) ↦ inl ([], key, value, rest, errstr, refl, e, rw e)
    | inl e ↦ elim (apply_settings_cases rest (set key value w).1) [
      | inl (before, k, v, after, errstr, s, r, a) ↦
          inl ((key, value) ∷ before, k, v, after, errstr, rw s refl, r, rw e a)
      | inr (inl (errstr, m, a)) ↦ inr (inl (errstr, m, rw e a))
      | inr (inr (m, a)) ↦ inr (inr (m, rw e a))
    ]
  ]
