-- ===== src/LmChat/Json.antt =====
-- Values as `JSON.parse` makes them, and what the code asks of an `unknown` value. A text is the list
-- of its UTF-16 code units; an object is the list of its members.
use databricks_vscode.Prelude.{ℕ, Bool, true, false, Option, none, some, Text, same, if◌then◌else◌}

mutual
  pub data Json : Type 0 where
    null : Json
    bool : Bool → Json
    num : ℕ → Json
    str : Text → Json
    arr : Items → Json
    obj : Fields → Json

  pub data Items : Type 0 where
    nil : Items
    cons : Json → Items → Items

  pub data Fields : Type 0 where
    end : Fields
    member : Text → Json → Fields → Fields

-- `isRecord`: an array is an object, too.
unfoldable pub is_record : Json → Bool
is_record (arr xs) = true
is_record (obj fs) = true
is_record _ = false

abbrev pub is_array : Json → Bool
is_array (arr xs) = true
is_array _ = false

unfoldable pub field_of : Text → Fields → Option Json
field_of key end = none
field_of key (member k v fs) = if same k key then some v else field_of key fs

-- `value[key]` of a record; `none` is `undefined`. An array has none of the keys of the code.
unfoldable pub get : Text → Json → Option Json
unfolding field_of
get key (obj fs) = field_of key fs
get key _ = none

-- `typeof value === "string"`
abbrev pub text_of : Option Json → Option Text
text_of (some (str s)) = some s
text_of _ = none

-- `value === "…"`
abbrev pub is_text : Text → Option Json → Bool
is_text s (some (str t)) = same t s
is_text s _ = false
