-- ===== src/Node/Controller/Stored.antt =====
-- What an acquire command leaves in the stored configuration.
use ekg.Prelude.{◌≡◌, refl, ap, ◌∙◌, String, Bool, true, false, Option, none, some, []}
use ekg.Common.Outcome.{ok}
use ekg.Command.Json.{Object}
use ekg.Command.Types.{CommandBase, Command, aquire_command, base, monitor}
use ekg.Data.Orm.{Orm}
use ekg.Data.Repository.{is_present, to_channel_monitor}
use ekg.Data.Repository.Contents.{is_present-insert, matches_refl}
use ekg.Node.Configuration.{add_channel_monitor, is_present-remove_channel_monitor}
use ekg.Node.Controller.{
  Worker, acquire_command_worker, get_command_worker, NodeController, submit_one, submit_to,
  store_aquire, resolve,
}
use ekg.Node.Controller.Dispatch.{aquire_fields, stored, next, submit_one-next}

module _ (orm : Orm) (serialize : Object → String) where
  submit_to-configuration :
      (w : Option Worker) (c : Command) (n : NodeController orm)
      → (submit_to orm serialize w c n).node_configuration ≡ n.node_configuration
  unfolding submit_to
  submit_to-configuration (some acquire_command_worker) c n = refl
  submit_to-configuration (some get_command_worker) c n = refl
  submit_to-configuration none c n = refl

  stored-is_present :
      (b : CommandBase) (a : Bool) (topic : String) (db : Orm.Db orm)
      → is_present orm
          (to_channel_monitor (aquire_fields b a topic))
          (stored orm serialize (aquire_command b a topic) db)
        ≡ true
  unfolding stored store_aquire add_channel_monitor
  stored-is_present b true topic db =
      let d = to_channel_monitor (aquire_fields b true topic) in
      is_present-insert orm d d db ∙ rw (matches_refl d)
  stored-is_present b false topic db =
      is_present-remove_channel_monitor orm (to_channel_monitor (aquire_fields b false topic)) [] []
        db

  -- After an acquire command of type `monitor` its channel, protocol and topic are in the
  -- stored configuration, whether the command activates the monitor or deactivates it.
  pub submit_one-is_present :
      (b : CommandBase) (a : Bool) (topic : String) (n : NodeController orm)
      → b.type ≡ monitor
      → (n' : NodeController orm) × (submit_one orm serialize (aquire_command b a topic) n ≡ ok n')
        × (is_present orm (to_channel_monitor (aquire_fields b a topic)) n'.node_configuration
            ≡ true)
  unfolding next
  submit_one-is_present b a topic n h = (
    submit_to orm serialize (resolve (base (aquire_command b a topic)).type n.worker_resolver).0
        (aquire_command b a topic) (next orm serialize (aquire_command b a topic) n),
    submit_one-next orm serialize (aquire_command b a topic) n h,
    ap (is_present orm (to_channel_monitor (aquire_fields b a topic))) (
          submit_to-configuration _ (aquire_command b a topic)
            (next orm serialize (aquire_command b a topic) n))
        ∙ stored-is_present b a topic n.node_configuration,
  )
