-- ===== src/Json.antt =====
-- Values of unknown type, as `JSON.parse` and the RPC's parsed instructions hold them, and the tests
-- that the package makes on them.
use synxed_solana_protocol.Base.{Bool, true, false, Option, none, some, if◌then◌else◌}
use synxed_solana_protocol.Base.Int.{eqb_ℤ}
use synxed_solana_protocol.Base.Text.{String, ◌===◌}
use synxed_solana_protocol.Types.{JsNumber, int}

mutual
  pub data Json : Type 0 where
    null : Json
    bool : Bool → Json
    number : JsNumber → Json
    text : String → Json
    array : Items → Json
    object : Fields → Json

  pub data Items : Type 0 where
    nil : Items
    cons : Json → Items → Items

  pub data Fields : Type 0 where
    end : Fields
    field : String → Json → Fields → Fields

-- `typeof value === "object" && value !== null`
abbrev pub is_record : Json → Bool
is_record (Json.array _) = true
is_record (Json.object _) = true
is_record _ = false

abbrev pub lookup : String → Fields → Option Json
lookup key Fields.end = none
lookup key (Fields.field name value fields) = if name === key then some value else lookup key fields

-- `value[key]` for a named key; none is `undefined`.
abbrev pub property : Json → String → Option Json
property (Json.object fields) key = lookup key fields
property _ key = none

-- `value === "text"`
abbrev pub is_text : Option Json → String → Bool
is_text (some (Json.text s)) t = s === t
is_text _ t = false

-- `value === n` for a number.
abbrev pub is_number : Option Json → JsNumber → Bool
is_number (some (Json.number (int m))) (int n) = eqb_ℤ m n
is_number _ n = false

abbrev pub is_defined : Option Json → Bool
is_defined none = false
is_defined (some _) = true

abbrev pub as_text : Option Json → Option String
as_text (some (Json.text s)) = some s
as_text _ = none

abbrev pub as_number : Option Json → Option JsNumber
as_number (some (Json.number n)) = some n
as_number _ = none
