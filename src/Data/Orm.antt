-- ===== src/Data/Orm.antt =====
-- The table "channel_monitor" of service/data/DataStorage.h, and the operations of the database
-- library on it, which are a parameter: `rows` lists the table in the order of its queries.
pub use ekg.Common.Int.{ℤ, pos, negsuc}
use ekg.Prelude.{
  ℕ, ◌≡◌, String, Bool, not, List, [], ◌∷◌, ◌++◌, length, filter, any, String_key, ◌==◌, ◌&&◌,
}

-- The default of `id` is -1, `negsuc 0`.
pub record ChannelMonitorType : Type 0 where
  pub id : ℤ
  pub channel_name : String
  pub channel_protocol : String
  pub channel_destination : String

abbrev pub Row : Type 0
Row = ChannelMonitorType

-- The condition that insert, remove, isPresent and getChannelMonitor give to `where`.
abbrev pub matches : Row → Row → Bool
matches d r =
    r.channel_name == d.channel_name
    && r.channel_protocol == d.channel_protocol
    && r.channel_destination == d.channel_destination

abbrev pub names : Row → String × String
names r = (r.channel_name, r.channel_protocol)

abbrev pub same_names : String × String → String × String → Bool
same_names (a, b) (c, d) = a == c && b == d

pub record Orm : Type 1 where
  pub Db : Type 0
  pub rows : Db → List Row
  -- The primary key that the next insertion assigns.
  pub next_id : Db → ℤ
  pub insert : Row → Db → Db
  pub count : (Row → Bool) → Db → ℕ
  pub get_all : (Row → Bool) → Db → List Row
  pub remove_all : (Row → Bool) → Db → Db
  pub select_distinct : Db → List (String × String)
  pub rows-insert :
      (r : Row) (d : Db) → rows (insert r d) ≡ rows d ++ record r { id = next_id d } ∷ []
  pub count-rows : (p : Row → Bool) (d : Db) → count p d ≡ length (filter p (rows d))
  pub get_all-rows : (p : Row → Bool) (d : Db) → get_all p d ≡ filter p (rows d)
  pub rows-remove_all :
      (p : Row → Bool) (d : Db) → rows (remove_all p d) ≡ filter (λ r. not (p r)) (rows d)
  pub select_distinct-rows :
      (d : Db) (n : String × String)
      → any (λ m. same_names m n) (select_distinct d) ≡ any (λ r. same_names (names r) n) (rows d)
