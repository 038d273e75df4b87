-- ===== src/Common/Outcome.antt =====
-- What a C++ expression may do: return a value, throw, or have undefined behaviour.
-- `runtime_error` and `std_error` are caught by `catch (std::exception&)`; `catch (...)` takes
-- `foreign` too. Undefined behaviour is never caught.
use ekg.Prelude.{◌≡◌, ◌≢◌, refl, String}

pub data Exception : Type 0 where
  runtime_error std_error : String → Exception
  foreign : Exception

pub data Outcome {ℓ} (T : Type ℓ) : Type ℓ where
  undefined : String → Outcome T
  throws : Exception → Outcome T
  ok : T → Outcome T

-- What comes next runs only after a return.
infixl 5 ◌>>=◌
abbrev pub ◌>>=◌ {κ ι} : {S : Type κ} {T : Type ι} → Outcome S → (S → Outcome T) → Outcome T
undefined why >>= next = undefined why
throws e >>= next = throws e
ok s >>= next = next s

-- A successful chain has a successful first step.
pub >>=-eq-ok {κ ι} :
    {S : Type κ} {T : Type ι} {t : T} (first : Outcome S) (next : S → Outcome T)
    → (first >>= next) ≡ ok t
    → (s : S) × (first ≡ ok s) × (next s ≡ ok t)
>>=-eq-ok (undefined why) next e = cc
>>=-eq-ok (throws x) next e = cc
>>=-eq-ok (ok s) next e = (s, refl, e)

-- A chain of steps that are defined is defined.
abbrev pub NeverUndefined {ι} : {T : Type ι} → Outcome T → Type ι
NeverUndefined o = (why : String) → o ≢ undefined why

pub >>=-NeverUndefined {κ ι} :
    {S : Type κ} {T : Type ι} (first : Outcome S) (next : S → Outcome T)
    → NeverUndefined first
    → ((s : S) → first ≡ ok s → NeverUndefined (next s))
    → NeverUndefined (first >>= next)
>>=-NeverUndefined (undefined u) next d h why e = d u refl
>>=-NeverUndefined (throws x) next d h why e = cc
>>=-NeverUndefined (ok s) next d h why e = h s refl why e

pub map-NeverUndefined {κ ι} :
    {S : Type κ} {T : Type ι} (first : Outcome S) (f : S → T)
    → NeverUndefined first
    → NeverUndefined (first >>= λ s. ok (f s))
map-NeverUndefined first f d = >>=-NeverUndefined first _ d (λ s h why. cc)

-- The same for code that acts on a world.
abbrev pub and_then {κ ι} :
    {W : Type 0} {S : Type κ} {T : Type ι} → Outcome S × W → (S → W → Outcome T × W) → Outcome T × W
and_then (undefined why, w) next = (undefined why, w)
and_then (throws e, w) next = (throws e, w)
and_then (ok s, w) next = next s w

pub and_then-eq-ok {κ ι} :
    {W : Type 0} {S : Type κ} {T : Type ι} {t : T} {w' : W} (first : Outcome S × W)
    (next : S → W → Outcome T × W)
    → and_then first next ≡ (ok t, w')
    → (s : S) × (first.0 ≡ ok s) × (next s first.1 ≡ (ok t, w'))
and_then-eq-ok (undefined why, w) next e = cc
and_then-eq-ok (throws x, w) next e = cc
and_then-eq-ok (ok s, w) next e = (s, refl, e)
