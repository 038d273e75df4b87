-- ===== src/Node/Configuration.antt =====
-- controller/node/configuration/NodeConfiguration.h and NodeConfiguration.cpp. The repository lives
-- as long as the storage that this object owns, so `toShared` finds it.
use ekg.Prelude.{ℕ, ◌≡◌, String, true, List, [], ◌∷◌, ◌∙◌, arith, ◌++◌}
use ekg.Data.Orm.{ChannelMonitorType, Row, Orm}
use ekg.Data.Repository.{
  insert, is_present, get_distinct_by_name_protocol, process_all_channel_monitor,
}
use ekg.Data.Repository.Contents.{is_present-insert, matches_refl}

module _ (orm : Orm) where
  open orm use {Db}

  unfoldable pub add_channel_monitor : List ChannelMonitorType → Db → Db
  add_channel_monitor [] db = db
  add_channel_monitor (d ∷ ds) db = add_channel_monitor ds (insert orm d db)

  -- The loop inserts, as in the source.
  unfoldable pub remove_channel_monitor : List ChannelMonitorType → Db → Db
  remove_channel_monitor [] db = db
  remove_channel_monitor (d ∷ ds) db = remove_channel_monitor ds (insert orm d db)

  process_each {ℓ} : {W : Type ℓ} → (ℕ → Row → W → W) → List (String × String) → Db → W → W
  process_each handler [] db w = w
  process_each handler ((name, protocol) ∷ ns) db w =
      process_each handler ns db (process_all_channel_monitor orm name protocol handler db w)

  pub iterate_all_channel_monitor {ℓ} : {W : Type ℓ} → (ℕ → Row → W → W) → Db → W → W
  unfolding process_each
  iterate_all_channel_monitor handler db w =
      process_each handler (get_distinct_by_name_protocol orm db) db w

  is_present-remove_others :
      (t : Row) (ds : List ChannelMonitorType) (db : Db)
      → is_present orm t db ≡ true
      → is_present orm t (remove_channel_monitor ds db) ≡ true
  unfolding remove_channel_monitor
  is_present-remove_others t [] db h = h
  is_present-remove_others t (d ∷ ds) db h =
      is_present-remove_others t ds _ (is_present-insert orm t d db ∙ ground (arith, h))

  -- After `removeChannelMonitor` every description that it was to remove is present.
  pub is_present-remove_channel_monitor :
      (t : Row) (before after : List ChannelMonitorType) (db : Db)
      → is_present orm t (remove_channel_monitor (before ++ t ∷ after) db) ≡ true
  unfolding remove_channel_monitor
  is_present-remove_channel_monitor t [] after db =
      is_present-remove_others t after _ (is_present-insert orm t t db ∙ rw (matches_refl t))
  is_present-remove_channel_monitor t (d ∷ before) after db =
      is_present-remove_channel_monitor t before after (insert orm d db)
