-- ===== src/Epics/Manager/Targets.antt =====
-- No call of `monitorChannel` touches the handlers.
use ekg.Prelude.{◌≡◌, refl, String, Bool, true, false, Option-cases, inl, inr, String_key}
use ekg.Prelude.StdMap.{find}
use ekg.Common.Outcome.{Outcome, ok, throws, undefined}
use ekg.Epics.Channel.{Pvac, EpicsChannel, create, connect, start_monitor}
use ekg.Epics.Manager.{
  Manager, after_failure, started_step, connected_step, created_step, add_channel, remove_channel,
  monitor_channel,
}

module _ (pvac : Pvac) {H : Type 0} where
  targets-started_step :
      (name : String) (m : Manager pvac H) (o : Outcome (EpicsChannel pvac))
      → (started_step pvac name m o).1.targets ≡ m.targets
  unfolding started_step after_failure
  targets-started_step name m (ok c) = refl
  targets-started_step name m (throws e) = refl
  targets-started_step name m (undefined u) = refl

  targets-connected_step :
      (name : String) (m : Manager pvac H) (o : Outcome (EpicsChannel pvac))
      → (connected_step pvac name m o).1.targets ≡ m.targets
  unfolding connected_step after_failure
  targets-connected_step name m (ok c) = targets-started_step name _ (start_monitor pvac c)
  targets-connected_step name m (throws e) = refl
  targets-connected_step name m (undefined u) = refl

  targets-created_step :
      (name : String) (m : Manager pvac H) (o : Outcome (EpicsChannel pvac))
      → (created_step pvac name m o).1.targets ≡ m.targets
  unfolding created_step after_failure
  targets-created_step name m (ok c) = targets-connected_step name _ (connect pvac c)
  targets-created_step name m (throws e) = refl
  targets-created_step name m (undefined u) = refl

  targets-add_channel :
      (name protocol : String) (m : Manager pvac H)
      → (add_channel pvac name protocol m).1.targets ≡ m.targets
  unfolding add_channel
  targets-add_channel name protocol m = elim (Option-cases (find name m.channel_map)) [
    | inl e ↦ rw (e, add_channel) (targets-created_step name m (create pvac protocol name))
    | inr (c, e) ↦ rw (e, add_channel)
  ]

  pub targets-monitor_channel :
      (name : String) (activate : Bool) (m : Manager pvac H)
      → (monitor_channel pvac name activate m).1.targets ≡ m.targets
  unfolding monitor_channel remove_channel
  targets-monitor_channel name true m = targets-add_channel name "pva" m
  targets-monitor_channel name false m = refl
