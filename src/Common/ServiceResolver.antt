-- ===== src/Common/ServiceResolver.antt =====
-- service/ServiceResolver.h: one slot for each service type. `resolve` returns the shared pointer
-- by value.
use ekg.Prelude.{Option, none, some}

pub record Slot {ℓ} (T : Type ℓ) : Type ℓ where
  pub registered_instance : Option T

module _ {ℓ} {T : Type ℓ} where
  unfoldable pub register_service : T → Slot T → Slot T
  register_service object s = record { registered_instance = some object }

  unfoldable pub resolve : Slot T → Option T
  resolve s = s.registered_instance

  -- ServiceResolver<T>::resolve().reset(): the pointer that is reset is the temporary copy.
  unfoldable pub resolve_reset : Slot T → Option T × Slot T
  unfolding resolve
  resolve_reset s = let copy : Option T = resolve s in let emptied : Option T = none in (emptied, s)
