-- ===== src/Prelude/Codes.antt =====
-- Text as its list of code units, for code that walks it.
use Prim.Native.Nat.{ℕ, ◌+◌}
use Prim.Native.Char.{code}
use Prim.Native.String.{String}
use mathlib.Core.Path.{◌≡◌}
use mathlib.Core.Logic.{◌↔◌}
use mathlib.Core.Bool.{Bool, true, false, ◌&&◌, ◌||◌}
use mathlib.Core.List.{List, [], ◌∷◌}
use mathlib.Core.Option.{Option, none, some}
use native.Mathlib.Omega.{arith}
use databricks_vscode.Prelude.Tests.{◌==◌, leb, if◌then◌else◌}

abbrev pub Text : Type 0
Text = List ℕ

abbrev pub codes : String → Text
codes String.[] = []
codes (String.◌∷◌ c s) = code c ∷ codes s

abbrev pub same : Text → Text → Bool
same [] [] = true
same [] (d ∷ t) = false
same (c ∷ s) [] = false
same (c ∷ s) (d ∷ t) = c == d && same s t

pub same_iff : (s t : Text) → (same s t ≡ true) ↔ (s ≡ t)
same_iff [] [] = ground arith
same_iff [] (d ∷ t) = ground arith
same_iff (c ∷ s) [] = ground arith
same_iff (c ∷ s) (d ∷ t) = ground (arith, same_iff s t)

abbrev pub starts_with : Text → Text → Bool
starts_with s [] = true
starts_with [] (d ∷ t) = false
starts_with (c ∷ s) (d ∷ t) = c == d && starts_with s t

-- `includes` for one character.
abbrev pub has : ℕ → Text → Bool
has c [] = false
has c (d ∷ s) = d == c || has c s

-- `includes`
abbrev pub contains : Text → Text → Bool
contains [] part = starts_with [] part
contains (c ∷ s) part = starts_with (c ∷ s) part || contains s part

-- What follows the prefix, if the text starts with it.
abbrev pub drop_prefix : Text → Text → Option Text
drop_prefix [] s = some s
drop_prefix (c ∷ prefix) [] = none
drop_prefix (c ∷ prefix) (d ∷ s) = if c == d then drop_prefix prefix s else none

-- `toLowerCase`, for the letters of ASCII.
abbrev pub lower : ℕ → ℕ
lower c = if leb b'A' c && leb c b'Z' then c + 32 else c

abbrev pub lower_all : Text → Text
lower_all [] = []
lower_all (c ∷ s) = lower c ∷ lower_all s

abbrev pub put_first : ℕ → List Text → List Text
put_first c [] = (c ∷ []) ∷ []
put_first c (line ∷ lines) = (c ∷ line) ∷ lines

-- `split("\n")`
unfoldable pub split_lines : Text → List Text
split_lines [] = [] ∷ []
split_lines (c ∷ s) = let rest = split_lines s in if c == 10 then [] ∷ rest else put_first c rest
