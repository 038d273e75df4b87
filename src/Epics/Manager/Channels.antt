-- ===== src/Epics/Manager/Channels.antt =====
-- Which channels are monitored after each call.
use ekg.Prelude.{
  ◌≡◌, refl, ◌∙◌, ap, String, none, some, if◌then◌else◌, String_key, arith, Option-cases, inl, inr,
  ◌≢◌, ◌==◌,
}
use ekg.Prelude.StdMap.{
  find, assign, erase, find-assign, find-erase, erase-assign, erase_of_missing,
}
use ekg.Common.Outcome.{Outcome, ok, throws, undefined, ◌>>=◌}
use ekg.Epics.Channel.{Pvac, EpicsChannel, create, connect, start_monitor}
use ekg.Epics.Manager.{
  Manager, rethrow, with_map, add_channel, remove_channel, created_step, connected_step,
  started_step,
}

-- A new channel, connected and subscribed.
abbrev pub start : (pvac : Pvac) → String → String → Outcome (EpicsChannel pvac)
start pvac protocol name = create pvac protocol name >>= connect pvac >>= start_monitor pvac

module _ (pvac : Pvac) {H : Type 0} where
  -- What `addChannel` promises for a channel that is not in the map, by how its start went.
  abbrev pub Adds :
      String
      → Manager pvac H
      → Outcome (EpicsChannel pvac)
      → Outcome (Unit {0}) × Manager pvac H
      → Type 0
  Adds name m (ok c) (r, m') =
      (r ≡ ok tt)
      × (m'.targets ≡ m.targets)
      × ((j : String)
          → find j m'.channel_map ≡ (if name == j then some c else find j m.channel_map))
  Adds name m (throws e) r = r ≡ (throws (rethrow e), m)
  Adds name m (undefined u) (r, m') = r ≡ undefined u

  module _ (name : String) (m : Manager pvac H) (absent : find name m.channel_map ≡ none) where
    restored :
        (n : Manager pvac H)
        → n.targets ≡ m.targets
        → erase name n.channel_map ≡ m.channel_map
        → with_map pvac n (erase name n.channel_map) ≡ m
    restored n t e = λ i. record { channel_map = e i; targets = t i }

    erased :
        (c d : EpicsChannel pvac)
        → erase name (assign name c (assign name d m.channel_map)) ≡ m.channel_map
    erased c d = erase-assign name c _ ∙ erase-assign name d _ ∙ erase_of_missing name _ absent

    assigned :
        (c d e : EpicsChannel pvac) (j : String)
        → find j (assign name c (assign name d (assign name e m.channel_map)))
          ≡ (if name == j then some c else find j m.channel_map)
    assigned c d e j = ground (
      arith,
      find-assign name j c (assign name d (assign name e m.channel_map)),
      find-assign name j d (assign name e m.channel_map),
      find-assign name j e m.channel_map,
    )

    started_step-Adds :
        (c d : EpicsChannel pvac) (o : Outcome (EpicsChannel pvac))
        → Adds name m o (
            started_step pvac name
              (with_map pvac m (assign name c (assign name d m.channel_map)))
              o)
    unfolding started_step
    started_step-Adds c d (ok x) = (refl, refl, assigned x c d)
    started_step-Adds c d (throws e) =
        ap (λ k. (throws (rethrow e), k)) (restored _ refl (erased c d))
    started_step-Adds c d (undefined u) = refl

    connected_step-Adds :
        (d : EpicsChannel pvac) (o : Outcome (EpicsChannel pvac))
        → Adds name m
            (o >>= start_monitor pvac)
            (connected_step pvac name (with_map pvac m (assign name d m.channel_map)) o)
    unfolding connected_step
    connected_step-Adds d (ok x) = started_step-Adds x d (start_monitor pvac x)
    connected_step-Adds d (throws e) =
        ap (λ k. (throws (rethrow e), k))
          (restored _ refl (erase-assign name d _ ∙ erase_of_missing name _ absent))
    connected_step-Adds d (undefined u) = refl

    created_step-Adds :
        (o : Outcome (EpicsChannel pvac))
        → Adds name m (o >>= connect pvac >>= start_monitor pvac) (created_step pvac name m o)
    unfolding created_step
    created_step-Adds (ok x) = connected_step-Adds x (connect pvac x)
    created_step-Adds (throws e) =
        ap (λ k. (throws (rethrow e), k)) (restored _ refl (erase_of_missing name _ absent))
    created_step-Adds (undefined u) = refl

    -- Adding a channel that is not in the map ends as the start of the channel does: either the
    -- started channel stands under its name, with all other entries and the handlers as they
    -- were; or the exception that `addChannel` makes is thrown and the manager is exactly as it
    -- was; or the behaviour is undefined.
    pub add_channel-Adds :
        (protocol : String)
        → Adds name m (start pvac protocol name) (add_channel pvac name protocol m)
    unfolding add_channel
    add_channel-Adds protocol =
        rw (absent, add_channel) (created_step-Adds (create pvac protocol name))

  -- Adding a channel that is there changes nothing.
  pub add_channel_present :
      (name protocol : String) (m : Manager pvac H)
      → find name m.channel_map ≢ none
      → add_channel pvac name protocol m ≡ (ok tt, m)
  unfolding add_channel
  add_channel_present name protocol m h = elim (Option-cases (find name m.channel_map)) [
    | inl e ↦ absurd (h e)
    | inr (c, e) ↦ rw (e, add_channel)
  ]

  -- After `removeChannel` the channel is gone, and every other one is as it was.
  pub find-remove_channel :
      (name j : String) (m : Manager pvac H)
      → find j (remove_channel pvac name m).channel_map
        ≡ (if name == j then none else find j m.channel_map)
  unfolding remove_channel
  find-remove_channel name j m = find-erase name j m.channel_map
