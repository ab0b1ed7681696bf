-- ===== src/Prelude/Json.antt =====
-- Python's JSON-like values: None, integers, texts and dictionaries with text keys. A float is the
-- integer of its unit.
use Prim.Native.String.{String}
use mathlib.Core.Bool.{Bool, true, ◌&&◌}
use mathlib.Core.Option.{Option, none, some}
use mathlib.Core.List.{List}
use text.Mathlib.Text.{◌==◌}
use ryuk.Prelude.Tests.{if◌then◌else◌}
use ryuk.Prelude.Int.{ℤ}
use ryuk.Prelude.Lists.{contains}
use ryuk.Prelude.Result.{Result, ok, err, type_error}

mutual
  pub data Json : Type 0 where
    null : Json
    number : ℤ → Json
    string : String → Json
    object : Fields → Json

  pub data Fields : Type 0 where
    no_fields : Fields
    field : String → Json → Fields → Fields

-- `values.get(key)`, with None apart from a missing key.
unfoldable pub field_of : String → Fields → Option Json
field_of key no_fields = none
field_of key (field k v fs) = let later = field_of key fs in if k == key then some v else later

-- Every key is a name of the list: a call with `**values` takes no other.
unfoldable pub has_only : List String → Fields → Bool
has_only names no_fields = true
has_only names (field k v fs) = contains k names && has_only names fs

unfoldable pub or_null : Option String → Json
or_null none = null
or_null (some s) = string s

-- A value that has to be there.
unfoldable pub as_text : Option Json → Result String
as_text (some (string s)) = ok s
as_text _ = err type_error

unfoldable pub as_number : Option Json → Result ℤ
as_number (some (number n)) = ok n
as_number _ = err type_error

unfoldable pub as_object : Option Json → Result Fields
as_object (some (object fs)) = ok fs
as_object _ = err type_error

-- A value with the default None.
unfoldable pub as_optional_text : Option Json → Result (Option String)
as_optional_text none = ok none
as_optional_text (some null) = ok none
as_optional_text (some (string s)) = ok (some s)
as_optional_text _ = err type_error
