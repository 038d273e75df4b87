-- ===== src/Data/Storage.antt =====
-- service/data/DataStorage.h and DataStorage.cpp. The file system and the opening of the database
-- are parameters. The recursive mutex is the number of times that the calling thread holds it.
use ekg.Prelude.{
  ℕ, suc, ◌-◌, ◌≡◌, refl, String, Bool, true, false, Option, none, some, List, [], ◌∷◌, append_text,
  if◌then◌else◌, zero, arith,
}
use ekg.Common.Outcome.{Outcome, ok, throws, runtime_error, std_error, and_then}

module _ (has_filename : String → Bool) (is_directory : String → Bool)
    (join : String → String → String) where
  -- The file that the constructor opens.
  unfoldable pub database_file : String → Outcome String
  database_file path =
      if has_filename path
      then ok path
      else if is_directory path
      then ok (join path "database.sqlite")
      else throws (runtime_error (append_text "The path " (append_text path " not exists")))

-- The repository is made at the first call; repositories are named by numbers.
pub record DataStorage : Type 0 where
  pub channel_repository_instance : Option ℕ
  pub made : ℕ

unfoldable pub get_channel_repository : DataStorage → ℕ × DataStorage
get_channel_repository s = elim s.channel_repository_instance [
  | none ↦ (s.made, record { channel_repository_instance = some s.made; made = suc s.made })
  | some r ↦ (r, s)
]

-- StorageLockedRef: whether its unique_lock owns the mutex, and whether the weak pointer is alive.
pub record StorageLockedRef : Type 0 where
  pub owns : Bool
  pub is_alive : Bool

unfoldable pub get_locked_storage : Bool → StorageLockedRef
get_locked_storage is_alive = record { owns = false; is_alive = is_alive }

-- get: the lock is taken before the pointer is read; an owning unique_lock refuses.
pub get : StorageLockedRef → ℕ → Outcome (Unit {0}) × StorageLockedRef × ℕ
get r held = if r.owns then (throws (std_error "Resource deadlock avoided"), r, held) else (
  if r.is_alive then ok tt else throws (runtime_error "Error locking storage"),
  record r { owns = true },
  suc held,
)

-- The destructor of the unique_lock.
pub destroy : StorageLockedRef → ℕ → ℕ
destroy r held = if r.owns then held - 1 else held

pub get_times : ℕ → StorageLockedRef → ℕ → StorageLockedRef × ℕ
unfolding get
get_times zero r held = (r, held)
get_times (suc n) r held = let (o, r', held') = get r held in get_times n r' held'

abbrev owned : Bool → StorageLockedRef
owned is_alive = record { owns = true; is_alive = is_alive }

owned_stays :
    (n : ℕ) (is_alive : Bool) (held : ℕ)
    → get_times n (owned is_alive) held ≡ (owned is_alive, held)
unfolding get_times
owned_stays zero is_alive held = refl
owned_stays (suc n) is_alive held = owned_stays n is_alive held

-- However often `get` is called on a reference, and whether it throws or not, the mutex is held
-- after the destructor as often as before the reference was made.
pub destroy-get_times :
    (n : ℕ) (is_alive : Bool) (held : ℕ)
    → destroy
        (get_times n (get_locked_storage is_alive) held).0
        (get_times n (get_locked_storage is_alive) held).1
      ≡ held
unfolding get_times destroy get_locked_storage
destroy-get_times zero is_alive held = refl
destroy-get_times (suc n) is_alive held = rw (owned_stays n is_alive (suc held)) (omega arith)

-- The table that initStorage declares: its name, its primary key, and its columns.
pub record Table : Type 0 where
  pub name : String
  pub primary_key : String
  pub is_autoincrement : Bool
  pub columns : List String

unfoldable pub init_storage : String → String × Table
init_storage path = (
  path,
  record {
    name = "channel_monitor";
    primary_key = "id";
    is_autoincrement = true;
    columns = "id" ∷ "channel_name" ∷ "channel_protocol" ∷ "channel_destination" ∷ [];
  },
)

-- getStorageFromWPtr, and toShared of common/utility.h: an expired pointer is none.
unfoldable pub get_storage_from_wptr {ℓ} : {S : Type ℓ} → Option S → Outcome S
get_storage_from_wptr none = throws (runtime_error "Error locking storage")
get_storage_from_wptr (some s) = ok s

-- The constructor: `make` opens the file and `sync` is sync_schema.
module _ {S W : Type 0} (make : String × Table → W → Outcome S × W)
    (sync : S → W → Outcome (Unit {0}) × W) where
  synchronised : S → W → Outcome S × W
  synchronised s w = and_then (sync s w) (λ u v. (ok s, v))

  unfoldable pub construct : Outcome String → W → Outcome S × W
  unfolding synchronised init_storage
  construct file_path w =
      and_then (file_path, w) (λ path v. and_then (make (init_storage path) v) synchronised)
