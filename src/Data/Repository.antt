-- ===== src/Data/Repository.antt =====
-- service/data/repository/ChannelRepository.h and ChannelRepository.cpp. Each method locks the
-- storage for its whole body, so it is one step on the database.
pub mod Contents
pub mod Queries
use ekg.Prelude.{
  ℕ, ◌+◌, ◌%◌, ◌^◌, String, Bool, true, Option, none, some, List, [], ◌∷◌, nat_eq, not, String_key,
  ◌==◌, if◌then◌else◌,
}
use ekg.Data.Orm.{ChannelMonitorType, Row, matches, Orm, negsuc}
use ekg.Command.Types.{AquireFields}

-- toChannelMonitor
unfoldable pub to_channel_monitor : AquireFields → ChannelMonitorType
to_channel_monitor c = record {
  id = negsuc 0;
  channel_name = c.channel_name;
  channel_protocol = c.protocol;
  channel_destination = c.destination_topic;
}

-- The loop of `processAllChannelMonitor`; its index is a uint32_t.
pub for_each_row {ℓ} : {W : Type ℓ} → (ℕ → Row → W → W) → ℕ → List Row → W → W
for_each_row handler idx [] w = w
for_each_row handler idx (r ∷ rs) w = for_each_row handler ((idx + 1) % 2 ^ 32) rs (handler idx r w)

abbrev first_row : List Row → Option Row
first_row [] = none
first_row (r ∷ rs) = some r

module _ (orm : Orm) where
  open orm use {Db}

  unfoldable pub insert : ChannelMonitorType → Db → Db
  insert d db = if nat_eq (orm.count (matches d) db) 0 then orm.insert d db else db

  unfoldable pub remove : ChannelMonitorType → Db → Db
  remove d db = orm.remove_all (matches d) db

  unfoldable pub is_present : ChannelMonitorType → Db → Bool
  is_present d db = not (nat_eq (orm.count (matches d) db) 0)

  unfoldable pub get_channel_monitor : ChannelMonitorType → Db → Option ChannelMonitorType
  get_channel_monitor d db = first_row (orm.get_all (matches d) db)

  unfoldable pub get_distinct_by_name_protocol : Db → List (String × String)
  get_distinct_by_name_protocol db = orm.select_distinct db

  -- The protocol is a parameter that the condition does not use.
  unfoldable pub process_all_channel_monitor {ℓ} :
      {W : Type ℓ} → String → String → (ℕ → Row → W → W) → Db → W → W
  unfolding for_each_row
  process_all_channel_monitor name protocol handler db w =
      for_each_row handler 0 (orm.get_all (λ r. r.channel_name == name) db) w

  unfoldable pub remove_all : Db → Db
  remove_all db = orm.remove_all (λ r. true) db
