-- ===== src/Environment/Vars/EnvFile.antt =====
-- What is read from an `.env` file.
use databricks_vscode.Prelude.{
  same, ℕ, zero, ◌≡◌, refl, ap, ◌∙◌, true, false, List, [], ◌∷◌, ◌++◌, Text, has, map, any, arith,
  All, if◌then◌else◌,
}
use databricks_vscode.LmChat.Events.{split, lines_of}
use databricks_vscode.LmChat.Events.Written.{is_line}
use databricks_vscode.Environment.Proxy.{is_nonempty}
use databricks_vscode.Environment.Vars.{env_line_end, entry_of, has_key, collect, get_user_env_vars}

-- A variable that an `.env` file can hold: the key has no `=`, and neither part is empty or has a line
-- end in it.
pub record Writable (entry : Text × Text) : Type 0 where
  pub key_nonempty : is_nonempty entry.0 ≡ true
  pub key_plain : has b'=' entry.0 ≡ false
  pub key_line : is_line entry.0 ≡ true
  pub value_nonempty : is_nonempty entry.1 ≡ true
  pub value_line : is_line entry.1 ≡ true

abbrev pub line_of : Text × Text → Text
line_of (key, value) = key ++ b'=' ∷ value

-- One line for each variable.
abbrev pub write_env : List (Text × Text) → Text
write_env [] = []
write_env (entry ∷ entries) = line_of entry ++ 10 ∷ write_env entries

-- The first entry of each key.
abbrev pub first_wins : List (Text × Text) → List (Text × Text) → List (Text × Text)
first_wins vars [] = vars
first_wins vars ((key, value) ∷ entries) =
    let with_it = first_wins (vars ++ (key, value) ∷ []) entries in
    let without = first_wins vars entries in if has_key key vars then without else with_it

has_key-any :
    (key : Text) (vars : List (Text × Text))
    → has_key key vars ≡ any (λ entry. same entry.0 key) vars
has_key-any key [] = refl
has_key-any key ((k, v) ∷ vars) = cc (has_key-any key vars)

entry_of-line :
    (key value : Text) → has b'=' key ≡ false → entry_of (key ++ b'=' ∷ value) ≡ (key, value)
unfolding entry_of
entry_of-line [] value h = refl
entry_of-line (c ∷ key) value h = ground (arith, h, entry_of-line key value (ground arith))

env_line_end-line : (c : ℕ) (s : Text) → is_line (c ∷ []) ≡ true → env_line_end (c ∷ s) ≡ zero
unfolding env_line_end
env_line_end-line c s h = ground arith

split-env_line :
    (s rest : Text)
    → is_line s ≡ true
    → split env_line_end zero (s ++ 10 ∷ rest)
      ≡ (s ∷ (split env_line_end zero rest).0, (split env_line_end zero rest).1)
unfolding split env_line_end
split-env_line [] rest h = ground arith
split-env_line (c ∷ s) rest h = ground (
  arith,
  env_line_end-line c (s ++ 10 ∷ rest) (ground arith),
  split-env_line s rest (ground arith),
)

is_line-append : (s t : Text) → is_line s ≡ true → is_line t ≡ true → is_line (s ++ t) ≡ true
is_line-append [] t h k = k
is_line-append (c ∷ s) t h k = ground (arith, h, is_line-append s t (ground arith) k)

split-write_env :
    (entries : List (Text × Text))
    → All Writable entries
    → lines_of (split env_line_end zero (write_env entries)) ≡ map line_of entries ++ [] ∷ []
unfolding split
split-write_env [] h = refl
split-write_env ((key, value) ∷ entries) (h, hs) =
    ap lines_of (
      split-env_line (key ++ b'=' ∷ value) (write_env entries)
        (is_line-append key (b'=' ∷ value) h.key_line h.value_line))
    ∙ ap (λ ls. (key ++ b'=' ∷ value) ∷ ls) (split-write_env entries hs)

collect-lines :
    (vars entries : List (Text × Text))
    → All Writable entries
    → collect vars (map line_of entries ++ [] ∷ []) ≡ first_wins vars entries
unfolding collect entry_of
collect-lines vars [] h = ground arith
collect-lines vars ((key, value) ∷ entries) (h, hs) = ground (
  arith,
  entry_of-line key value h.key_plain,
  has_key-any key vars,
  h.key_nonempty,
  h.value_nonempty,
  collect-lines vars entries hs,
  collect-lines (vars ++ (key, value) ∷ []) entries hs,
)

-- Variables that are written to an `.env` file, one to a line, are read back, if no key and no value
-- is empty or has a line end, and no key has an equals sign; of several with one key the first one
-- counts.
pub get_user_env_vars-written :
    (entries : List (Text × Text))
    → All Writable entries
    → get_user_env_vars (write_env entries) ≡ first_wins [] entries
unfolding get_user_env_vars
get_user_env_vars-written entries h =
    ap (collect []) (split-write_env entries h) ∙ collect-lines [] entries h
