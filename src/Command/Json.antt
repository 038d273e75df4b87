-- ===== src/Command/Json.antt =====
-- The part of boost::json that the parser uses: values with their kinds, and members by name.
-- A number's payload is its 64-bit pattern.
use ekg.Prelude.{ℕ, String, Option, none, some, Bool, true, false, ◌==◌, String_key, if◌then◌else◌}
use ekg.Common.Outcome.{Outcome, ok, throws, std_error}

mutual
  pub data Value : Type 0 where
    null : Value
    bool : Bool → Value
    int64 uint64 double : ℕ → Value
    text : String → Value
    array : Items → Value
    object : Object → Value

  pub data Items : Type 0 where
    nil : Items
    cons : Value → Items → Items

  pub data Object : Type 0 where
    empty : Object
    member : String → Value → Object → Object

pub data Kind : Type 0 where
  null bool int64 uint64 double text array object : Kind

unfoldable pub kind : Value → Kind
kind Value.null = Kind.null
kind (Value.bool b) = Kind.bool
kind (Value.int64 n) = Kind.int64
kind (Value.uint64 n) = Kind.uint64
kind (Value.double n) = Kind.double
kind (Value.text s) = Kind.text
kind (Value.array xs) = Kind.array
kind (Value.object o) = Kind.object

-- The two kinds that the parser asks for.
unfoldable pub same_kind : Kind → Kind → Bool
same_kind Kind.null Kind.null = true
same_kind Kind.bool Kind.bool = true
same_kind Kind.int64 Kind.int64 = true
same_kind Kind.uint64 Kind.uint64 = true
same_kind Kind.double Kind.double = true
same_kind Kind.text Kind.text = true
same_kind Kind.array Kind.array = true
same_kind Kind.object Kind.object = true
same_kind _ _ = false

-- obj.if_contains(name)
unfoldable pub if_contains : String → Object → Option Value
if_contains name empty = none
if_contains name (member key v rest) = if key == name then some v else if_contains name rest

-- v.as_string() and v.as_object() throw on a value of another kind.
unfoldable pub as_string : Value → Outcome String
as_string (Value.text s) = ok s
as_string _ = throws (std_error "not a string")

unfoldable pub as_object : Value → Outcome Object
as_object (Value.object o) = ok o
as_object _ = throws (std_error "not an object")
