-- ===== src/Epics/Channel.antt =====
-- service/epics/EpicsChannel.h and EpicsChannel.cpp over the PVA client library, which is the
-- parameter `Pvac`: a subscription with its last event and its queue of updates.
pub mod Access
use ekg.Prelude.{
  ℕ, zero, suc, ◌<◌, ◌≡◌, refl, String, Bool, true, Option, none, some, List, [], ◌∷◌, arith,
  length, if◌then◌else◌,
}
use mathlib.Core.Option.{get_or}
use ekg.Common.Outcome.{Outcome, ok, undefined, ◌>>=◌}

-- pvac::MonitorEvent
pub data PvacEvent : Type 0 where
  fail cancel disconnect fresh : PvacEvent

pub record Pvac : Type 1 where
  pub Subscription : Type 0
  pub Structure : Type 0
  pub event : Subscription → PvacEvent
  pub message : Subscription → String
  -- The updates that `poll` hands out from here until it first finds the FIFO empty, oldest first:
  -- those that are there, and those that arrive in between. They are finitely many: at some time
  -- the FIFO is found empty.
  pub served : Subscription → List Structure
  -- Whether something happened within 0.1 seconds.
  pub wait : Subscription → Bool × Subscription
  pub poll : Subscription → Option Structure × Subscription
  pub poll_empty : (s : Subscription) → served s ≡ [] → (poll s).0 ≡ none
  pub poll_next :
      (s : Subscription) (d : Structure) (ds : List Structure)
      → served s ≡ d ∷ ds
      → ((poll s).0 ≡ some d) × (served (poll s).1 ≡ ds)
  -- Provider, connection and subscription of a channel; each may throw.
  pub Provider : Type 0
  pub Client : Type 0
  pub open_provider : String → Outcome Provider
  pub connect_to : Provider → String → String → Outcome Client
  pub subscribe : Client → Outcome Subscription

-- `Data` of the source is `fresh_data`.
pub data MonitorType : Type 0 where
  fail cancel disconnec fresh_data : MonitorType

module _ (pvac : Pvac) where
  open pvac use {Subscription, Structure, Provider, Client}

  pub record MonitorEvent : Type 0 where
    pub type : MonitorType
    pub channel_name : String
    pub message : String
    pub payload : Option Structure

  -- `channel` and `mon` are empty until `connect` and `startMonitor`.
  pub record EpicsChannel : Type 0 where
    pub channel_name : String
    pub address : String
    pub provider : Provider
    pub channel : Option Client
    pub mon : Option Subscription

module _ (pvac : Pvac) where
  open pvac use {
    Subscription, Structure, event, message, served, wait, poll, poll_empty, poll_next,
    open_provider, connect_to, subscribe,
  }

  abbrev pub event_of : MonitorType → String → String → Option Structure → MonitorEvent pvac
  event_of type channel text payload = record {
    type = type;
    channel_name = channel;
    message = text;
    payload = payload;
  }

  -- One more update in front of what the rest of the loop collects.
  abbrev pub collect :
      String
      → String
      → Structure
      → Option (List (MonitorEvent pvac) × Subscription)
      → Option (List (MonitorEvent pvac) × Subscription)
  collect channel text d none = none
  collect channel text d (some (es, s)) = some (event_of fresh_data channel text (some d) ∷ es, s)

  abbrev next_round :
      String
      → Option Structure
      → Subscription
      → Option (List (MonitorEvent pvac) × Subscription)
      → Option (List (MonitorEvent pvac) × Subscription)
  next_round channel none s rest = some ([], s)
  next_round channel (some d) s rest = collect channel (message s) d rest

  -- `while (mon.poll())`, with fuel: `none` means that the fuel ran out.
  unfoldable pub drain :
      ℕ → String → Subscription → Option (List (MonitorEvent pvac) × Subscription)
  drain zero channel s = none
  drain (suc n) channel s =
      let rest = drain n channel (poll s).1 in next_round channel (poll s).0 (poll s).1 rest

  single : MonitorType → String → Subscription → List (MonitorEvent pvac) × Subscription
  single type channel s = (event_of type channel (message s) none ∷ [], s)

  -- The switch of `monitor` on the last event.
  monitor_case :
      ℕ → String → PvacEvent → Subscription → Option (List (MonitorEvent pvac) × Subscription)
  unfolding single drain
  monitor_case n channel PvacEvent.fail s = some (single fail channel s)
  monitor_case n channel PvacEvent.cancel s = some (single cancel channel s)
  monitor_case n channel PvacEvent.disconnect s = some (single disconnec channel s)
  monitor_case n channel PvacEvent.fresh s = drain n channel s

  -- EpicsChannel::monitor, with fuel for the loop.
  unfoldable pub monitor_fuel :
      ℕ → String → Subscription → Option (List (MonitorEvent pvac) × Subscription)
  unfolding monitor_case
  monitor_fuel n channel s =
      let (happened, s') = wait s in
      let answer = monitor_case n channel (event s') s' in
      if happened then answer else some ([], s')

  -- The loop takes one round more than there are updates served.
  unfoldable pub monitor : String → Subscription → List (MonitorEvent pvac) × Subscription
  unfolding monitor_fuel
  monitor channel s = get_or (monitor_fuel (suc (length (served (wait s).1))) channel s) ([], s)

  -- The constructor: the default of `address` is the empty text.
  unfoldable pub create : String → String → Outcome (EpicsChannel pvac)
  create provider_name name = do
    p ← open_provider provider_name
    ok (record { channel_name = name; address = ""; provider = p; channel = none; mon = none })

  unfoldable pub connect : EpicsChannel pvac → Outcome (EpicsChannel pvac)
  connect c = do
    client ← connect_to c.provider c.channel_name c.address
    ok (record c { channel = some client })

  -- A null `channel` is dereferenced.
  unfoldable pub start_monitor : EpicsChannel pvac → Outcome (EpicsChannel pvac)
  start_monitor c = elim c.channel [
    | none ↦ undefined "null channel"
    | some client ↦ subscribe client >>= λ s. ok (record c { mon = some s })
  ]

  -- The updates that a list of events carries.
  abbrev pub Carries : String → List (MonitorEvent pvac) → List Structure → Type 0
  Carries channel [] [] = Unit
  Carries channel (e ∷ es) (d ∷ ds) =
      (e.type ≡ fresh_data)
      × (e.channel_name ≡ channel)
      × (e.payload ≡ some d)
      × Carries channel es ds
  Carries channel _ _ = ⊥

  -- The last poll found the FIFO empty.
  abbrev pub WasEmpty : Subscription → Type 0
  WasEmpty s = (before : Subscription) × (s ≡ (poll before).1) × ((poll before).0 ≡ none)

  Drained : String → List Structure → Option (List (MonitorEvent pvac) × Subscription) → Type 0
  Drained channel ds r =
      (es : List (MonitorEvent pvac)) × (s : Subscription) × (r ≡ some (es, s))
      × Carries channel es ds
      × WasEmpty s

  drain-Drained :
      (ds : List Structure) (n : ℕ) (channel : String) (s : Subscription)
      → served s ≡ ds
      → length ds < n
      → Drained channel ds (drain n channel s)
  unfolding drain Drained
  drain-Drained ds zero channel s q h = absurd (omega arith)
  drain-Drained [] (suc n) channel s q h =
      ([], (poll s).1, rw (poll_empty s q) refl, tt, (s, refl, poll_empty s q))
  drain-Drained (d ∷ ds) (suc n) channel s q h =
      let (got, left) = poll_next s d ds q in
      let (es, s', e, c, out) = drain-Drained ds n channel (poll s).1 left (omega arith) in
      (
        event_of fresh_data channel (message (poll s).1) (some d) ∷ es,
        s',
        rw (got, e) refl,
        (refl, refl, refl, c),
        out,
      )

  -- When the wait ends with an update announced, and the FIFO is at some time found empty,
  -- `monitor` ends there: it returns each update that was there or arrived before that once,
  -- oldest first, as a data event of this channel, and its last poll is the first to find none.
  pub monitor_drains :
      (channel : String) (s : Subscription)
      → (wait s).0 ≡ true
      → event (wait s).1 ≡ PvacEvent.fresh
      → (es : List (MonitorEvent pvac)) × (s' : Subscription) × (monitor channel s ≡ (es, s'))
        × Carries channel es (served (wait s).1)
        × WasEmpty s'
  unfolding monitor Drained
  monitor_drains channel s w e =
      let (es, s', r, c, out) =
        drain-Drained (served (wait s).1) (suc (length (served (wait s).1))) channel (wait s).1 refl
          (omega arith) in
      (es, s', rw (w, e, r) refl, c, out)
