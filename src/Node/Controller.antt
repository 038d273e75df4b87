-- ===== src/Node/Controller.antt =====
-- controller/node/NodeController.h and NodeController.cpp, worker/WorkerResolver.h and
-- worker/GetCommandWorker.cpp. The pool is the list of the tasks that were pushed.
pub mod Dispatch
pub mod Stored
use mathlib.Core.Option.{get_or}
use ekg.Prelude.{
  ◌≡◌, refl, String, Bool, true, false, Option, none, some, List, [], ◌∷◌, ◌++◌, append_text,
  if◌then◌else◌,
}
use ekg.Prelude.StdMap.{StdMap, find, insert, at}
use ekg.Common.Outcome.{Outcome, ok, throws, undefined, ◌>>=◌}
use ekg.Common.Log.{LogLine, line, info}
use ekg.Command.Json.{Object}
use ekg.Command.Types.{
  CommandType_key, CommandType, monitor, get, Command, base, AquireFields, as_aquire,
  command_type_to_string,
}
use ekg.Command.Serial.{to_json_string}
use ekg.Data.Orm.{Orm}
use ekg.Data.Repository.{to_channel_monitor}
use ekg.Node.Configuration.{add_channel_monitor, remove_channel_monitor}

-- The classes of workers that are registered.
pub data Worker : Type 0 where
  acquire_command_worker get_command_worker : Worker

-- A null pointer is `none`.
abbrev pub WorkerResolver : Type 0
WorkerResolver = StdMap CommandType (Option Worker)

unfoldable pub register_service : CommandType → Worker → WorkerResolver → WorkerResolver
register_service type worker r = (insert type (some worker) r).0

-- typed_instances[type] adds a null pointer for a type that is not registered.
unfoldable pub resolve : CommandType → WorkerResolver → Option Worker × WorkerResolver
resolve type r = at type none r

pub record NodeController (orm : Orm) : Type 0 where
  pub worker_resolver : WorkerResolver
  pub node_configuration : Orm.Db orm
  pub tasks : List Command
  pub log : List LogLine

-- The two workers that the constructor registers.
unfoldable pub registered : WorkerResolver
unfolding register_service
registered =
    register_service get get_command_worker (register_service monitor acquire_command_worker [])

module _ (orm : Orm) (serialize : Object → String) where
  unfoldable pub create : Orm.Db orm → NodeController orm
  unfolding registered
  create storage = record {
    worker_resolver = registered;
    node_configuration = storage;
    tasks = [];
    log = [];
  }

  -- The case of the switch for an acquire command.
  unfoldable pub store_aquire : AquireFields → Orm.Db orm → Orm.Db orm
  store_aquire c db =
      if c.activate
      then add_channel_monitor orm (to_channel_monitor c ∷ []) db
      else remove_channel_monitor orm (to_channel_monitor c ∷ []) db

  store_command : CommandType → Command → Orm.Db orm → Outcome (Orm.Db orm)
  unfolding store_aquire as_aquire
  store_command monitor c db = as_aquire c >>= λ f. ok (store_aquire f db)
  store_command _ c db = ok db

  -- worker->submitCommand(c): one pushes a task, the other does nothing.
  unfoldable pub submit_to : Option Worker → Command → NodeController orm → NodeController orm
  submit_to (some acquire_command_worker) c n = record n { tasks = n.tasks ++ c ∷ [] }
  submit_to (some get_command_worker) c n = n
  submit_to none c n = record n {
    log =
        n.log
        ++ line
            (append_text "No worker found for command type '"
              (append_text (command_type_to_string (base c).type) "'"))
            info
          ∷ [];
  }

  pub submit_one : Command → NodeController orm → Outcome (NodeController orm)
  unfolding store_command submit_to
  submit_one c n = do
    db ← store_command (base c).type c n.node_configuration
    text ← to_json_string serialize c
    let (worker, resolver) = resolve (base c).type n.worker_resolver
    ok (
        submit_to worker c (record {
          worker_resolver = resolver;
          node_configuration = db;
          tasks = n.tasks;
          log = n.log ++ line (append_text "Process command => " text) info ∷ [];
        }))

  unfoldable pub submit_command : List Command → NodeController orm → Outcome (NodeController orm)
  unfolding submit_one
  submit_command [] n = ok n
  submit_command (c ∷ cs) n = submit_one c n >>= submit_command cs
