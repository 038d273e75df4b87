-- ===== src/Tests/Storage.antt =====
-- The stored configuration and the node controller on a table of rows.
use ekg.Prelude.{ℕ, ◌≡◌, refl, true, false, some, [], ◌∷◌, ◌++◌}
use ekg.Common.Outcome.{ok}
use ekg.Command.Types.{aquire_command}
use ekg.Data.Orm.{Row}
use ekg.Data.Repository.{
  is_present, get_channel_monitor, process_all_channel_monitor, to_channel_monitor,
  insert as insert_row,
}
use ekg.Data.Repository.Contents.{inserts, removes, wish, apply_all, apply_all-wish_all, IsUnique}
use ekg.Data.Repository.Queries.{get_channel_monitor-insert, process_all_channel_monitor-numbered}
use ekg.Node.Configuration.{remove_channel_monitor, is_present-remove_channel_monitor}
use ekg.Node.Controller.{NodeController, create, submit_one}
use ekg.Node.Controller.Dispatch.{aquire_fields}
use ekg.Node.Controller.Stored.{submit_one-is_present}
use ekg.Tests.{orm, row, serialize, monitor_base, acquire}

apply_all_example :
    (is_present orm
        (row "pva" "t1")
        (apply_all orm (inserts (row "pva" "t1") ∷ removes (row "pva" "t2") ∷ []) [])
      ≡ true)
    × IsUnique (apply_all orm (inserts (row "pva" "t1") ∷ removes (row "pva" "t2") ∷ []) [])
unfolding wish
apply_all_example =
    apply_all-wish_all orm (inserts (row "pva" "t1") ∷ removes (row "pva" "t2") ∷ []) []
      (row "pva" "t1") tt

stored_example :
    (r : Row) × (get_channel_monitor orm
        (to_channel_monitor (acquire "channel:a" true "out"))
        (insert_row orm (to_channel_monitor (acquire "channel:a" true "out")) (row "pva" "t1" ∷ []))
      ≡ some r)
    × (r.channel_name ≡ "channel:a")
    × (r.channel_protocol ≡ "pva")
    × (r.channel_destination ≡ "out")
stored_example =
    get_channel_monitor-insert orm (acquire "channel:a" true "out") (row "pva" "t1" ∷ [])

-- Rows of both protocols, although "pva" is asked for.
numbered_example :
    process_all_channel_monitor orm "channel:a" "pva"
      (λ i r w. ◌++◌ {A = ℕ × Row} w ((i, r) ∷ []))
      (row "pva" "t1" ∷ row "ca" "t2" ∷ [])
      []
    ≡ (0, row "pva" "t1") ∷ (1, row "ca" "t2") ∷ []
numbered_example =
    process_all_channel_monitor-numbered orm "channel:a" "pva" (row "pva" "t1" ∷ row "ca" "t2" ∷ [])

removed_is_present_example :
    is_present orm
      (row "pva" "t1")
      (remove_channel_monitor orm (row "pva" "t2" ∷ row "pva" "t1" ∷ []) [])
    ≡ true
removed_is_present_example =
    is_present-remove_channel_monitor orm (row "pva" "t1") (row "pva" "t2" ∷ []) [] []

submit_one_example :
    (n' : NodeController orm) × (submit_one orm serialize
        (aquire_command monitor_base false "t1")
        (create orm serialize [])
      ≡ ok n')
    × (is_present orm
          (to_channel_monitor (aquire_fields monitor_base false "t1"))
          n'.node_configuration
        ≡ true)
submit_one_example =
    submit_one-is_present orm serialize monitor_base false "t1" (create orm serialize []) refl
