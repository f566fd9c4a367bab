-- ===== src/Cache/Value.antt =====
-- JavaScript values as packages/cache/src/utils/MemoryTracker.ts looks at them.
use Prim.Native.String.{String}
use Prim.Native.Char.{code}
use wince_backend.Prelude.{ℕ, ◌+◌, Bool, true, false, ltb, if◌then◌else◌}

-- A number with whether it is whole; any other object, a function or a symbol, is opaque.
mutual
  pub data JsValue : Type 0 where
    undefined null opaque : JsValue
    boolean : Bool → JsValue
    number : ℕ → (is_whole : Bool) → JsValue
    string : String → JsValue
    array : JsItems → JsValue
    object : JsFields → JsValue

  pub data JsItems : Type 0 where
    nil : JsItems
    cons : JsValue → JsItems → JsItems

  pub data JsFields : Type 0 where
    end : JsFields
    field : String → JsValue → JsFields → JsFields

-- `length` of a string, which counts the UTF-16 code units
abbrev pub utf16_length : String → ℕ
utf16_length String.[] = 0
utf16_length (String.◌∷◌ c s) = (if ltb (code c) 65536 then 1 else 2) + utf16_length s

abbrev pub is_null : JsValue → Bool
is_null null = true
is_null _ = false

abbrev pub is_undefined : JsValue → Bool
is_undefined undefined = true
is_undefined _ = false
