-- ===== src/Prelude/Json.antt =====
-- JSON values, as Python's `json` reads them. A finite float is `mantissa * 2 ^ exponent`.
use Prim.Native.String.{String}
use mathlib.Core.Bool.{Bool}
use mathlib.Core.Option.{Option, none, some}
use eeebot_self_evolving.Prelude.Int.{ℤ}

mutual
  pub data Json : Type 0 where
    null : Json
    bool : Bool → Json
    int : ℤ → Json
    float : (mantissa exponent : ℤ) → Json
    str : String → Json
    arr : Items → Json
    obj : Fields → Json

  pub data Items : Type 0 where
    nil : Items
    cons : Json → Items → Items

  pub data Fields : Type 0 where
    end : Fields
    field : String → Json → Fields → Fields

-- A key of an object: missing, `null`, or a value.
pub data Key (A : Type 0) : Type 0 where
  missing : Key A
  none_value : Key A
  value : A → Key A

-- `d.get(key)`
abbrev pub get : {A : Type 0} → Key A → Option A
get missing = none
get none_value = none
get (value a) = some a
