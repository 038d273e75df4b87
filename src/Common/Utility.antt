-- ===== src/Common/Utility.antt =====
-- common/utility.h
use ekg.Prelude.{String, Option, none, some, append_text}
use ekg.Common.Outcome.{Outcome, ok, throws, runtime_error}

-- A weak pointer that has expired is none; `type_name` is typeid(w).name().
unfoldable pub to_shared {ℓ} : {T : Type ℓ} → String → Option T → Outcome T
to_shared type_name none =
    throws (runtime_error (append_text "Error getting shared ptr for : " type_name))
to_shared type_name (some s) = ok s
