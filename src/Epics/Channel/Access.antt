-- ===== src/Epics/Channel/Access.antt =====
-- The operations of EpicsChannel on the data of its channel, the end of a subscription, and the
-- start and stop of the "ca" provider (service/epics/EpicsChannel.cpp). The client library is a
-- parameter over a world `W`.
use ekg.Prelude.{String, Option, none, some}
use ekg.Common.Outcome.{Outcome, undefined}
use ekg.Epics.Channel.{Pvac, EpicsChannel}

-- `V` is the type of scalar values, and `put` is channel->put().set(name, value).exec().
pub record PvaClient (pvac : Pvac) (V W : Type 0) : Type 0 where
  pub get : Pvac.Client pvac → W → Outcome (Pvac.Structure pvac) × W
  pub put : Pvac.Client pvac → String → V → W → Outcome (Unit {0}) × W
  -- A subscription that was never started is empty.
  pub cancel : Option (Pvac.Subscription pvac) → W → W
  pub start_ca : W → W
  pub stop_ca : W → W

module _ (pvac : Pvac) {V W : Type 0} (client : PvaClient pvac V W) where
  -- A null `channel` is dereferenced.
  unfoldable pub get_data : EpicsChannel pvac → W → Outcome (Pvac.Structure pvac) × W
  get_data c w = elim c.channel [ none ↦ (undefined "null channel", w) | some h ↦ client.get h w ]

  unfoldable pub put_data : String → V → EpicsChannel pvac → W → Outcome (Unit {0}) × W
  put_data name value c w = elim c.channel [
    | none ↦ (undefined "null channel", w)
    | some h ↦ client.put h name value w
  ]

  unfoldable pub stop_monitor : EpicsChannel pvac → W → W
  stop_monitor c w = client.cancel c.mon w

  unfoldable pub init : W → W
  init w = client.start_ca w

  unfoldable pub deinit : W → W
  deinit w = client.stop_ca w
