-- ===== src/Command/Parser/Reading.antt =====
-- Reading the members of a request: the lemmas on `getCMDType` and on one member at a time.
use ekg.Prelude.{
  String, Option, none, some, Bool, ◌≡◌, ◌≢◌, refl, ap, String_key, arith, eq_iff, inl, inr, ◌⊎◌,
}
use ekg.Common.Outcome.{Outcome, ok, undefined, ◌>>=◌}
use ekg.Command.Json.{Value, Object, if_contains, as_string}
use ekg.Command.Types.{
  CommandType, monitor, get, put, info, unknown, Command, command_type_to_string,
}
use ekg.Command.Parser.{named_type, get_cmd_type}
use ekg.Command.Parser.Fields.{text_of, bool_of}

abbrev pub HasText : Object → String → String → Type 0
HasText obj key s = if_contains key obj ≡ some (Value.text s)

abbrev pub LacksText : Object → String → Type 0
LacksText obj key = (s : String) → if_contains key obj ≢ some (Value.text s)

pub text_of_ok : (o : Option Value) (s : String) → text_of o ≡ ok s → o ≡ some (Value.text s)
text_of_ok (some (Value.text t)) s h = cc
text_of_ok none s h = cc
text_of_ok (some _) s h = cc

pub bool_of_ok : (o : Option Value) (b : Bool) → bool_of o ≡ ok b → o ≡ some (Value.bool b)
bool_of_ok (some (Value.bool c)) b h = cc
bool_of_ok none b h = cc
bool_of_ok (some _) b h = cc

abbrev pub past_end : String
past_end = "dereference of the end iterator"

text_of_cases :
    (o : Option Value)
    → ((s : String) × (o ≡ some (Value.text s)) × (text_of o ≡ ok s))
      ⊎ (text_of o ≡ undefined past_end)
text_of_cases (some (Value.text t)) = inl (t, refl, refl)
text_of_cases none = inr refl
text_of_cases (some _) = inr refl

bool_of_cases :
    (o : Option Value)
    → ((b : Bool) × (o ≡ some (Value.bool b)) × (bool_of o ≡ ok b))
      ⊎ (bool_of o ≡ undefined past_end)
bool_of_cases (some (Value.bool b)) = inl (b, refl, refl)
bool_of_cases none = inr refl
bool_of_cases (some _) = inr refl

named_type_inv :
    (cmd : String) (t : CommandType)
    → t ≢ unknown
    → named_type cmd ≡ t
    → cmd ≡ command_type_to_string t
unfolding named_type command_type_to_string
named_type_inv cmd monitor n h = ground (arith, eq_iff cmd "monitor")
named_type_inv cmd get n h = ground (arith, eq_iff cmd "get")
named_type_inv cmd put n h = ground (arith, eq_iff cmd "put")
named_type_inv cmd info n h = ground (arith, eq_iff cmd "info")
named_type_inv cmd unknown n h = absurd (n refl)

module _ (obj : Object) where
  pub get_cmd_type_text :
      (t : CommandType)
      → t ≢ unknown
      → HasText obj "command" (command_type_to_string t)
      → get_cmd_type obj ≡ ok t
  unfolding get_cmd_type command_type_to_string
  get_cmd_type_text monitor n h = rw (h, get_cmd_type) refl
  get_cmd_type_text get n h = rw (h, get_cmd_type) refl
  get_cmd_type_text put n h = rw (h, get_cmd_type) refl
  get_cmd_type_text info n h = rw (h, get_cmd_type) refl
  get_cmd_type_text unknown n h = absurd (n refl)

  pub get_cmd_type_inv :
      (t : CommandType)
      → t ≢ unknown
      → get_cmd_type obj ≡ ok t
      → HasText obj "command" (command_type_to_string t)
  unfolding get_cmd_type as_string
  get_cmd_type_inv t n h = go (if_contains "command" obj) h
    where
      go :
          (o : Option Value)
          → (elim o [ none ↦ ok unknown | some v ↦ as_string v >>= λ cmd. ok (named_type cmd) ])
            ≡ ok t
          → o ≡ some (Value.text (command_type_to_string t))
      go none q = absurd (n (cc))
      go (some (Value.text cmd)) q = ap (λ x. some (Value.text x)) (named_type_inv cmd t n (cc))
      go (some _) q = cc

pub text_step :
    (o : Option Value) (f : String → Outcome (Option Command))
    → ((s : String) → f s ≡ undefined past_end)
    → (text_of o >>= f) ≡ undefined past_end
text_step (some (Value.text t)) f h = h t
text_step none f h = refl
text_step (some _) f h = refl

pub bool_step :
    (o : Option Value) (f : Bool → Outcome (Option Command))
    → ((b : Bool) → f b ≡ undefined past_end)
    → (bool_of o >>= f) ≡ undefined past_end
bool_step (some (Value.bool b)) f h = h b
bool_step none f h = refl
bool_step (some _) f h = refl

module _ (obj : Object) where
  pub LacksText-text_of :
      (key : String) → LacksText obj key → text_of (if_contains key obj) ≡ undefined past_end
  LacksText-text_of key h = elim (text_of_cases (if_contains key obj)) [
    | inl (s, e, _) ↦ absurd (h s e)
    | inr e ↦ e
  ]

  pub bool_of_lacking :
      ((b : Bool) → if_contains "activate" obj ≢ some (Value.bool b))
      → bool_of (if_contains "activate" obj) ≡ undefined past_end
  bool_of_lacking h = elim (bool_of_cases (if_contains "activate" obj)) [
    | inl (s, e, _) ↦ absurd (h s e)
    | inr e ↦ e
  ]
