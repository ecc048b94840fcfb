-- ===== src/Execute/Output.antt =====
-- The output of a run: `splitStdoutErrorEnvelope`, `createProgressReporter`, `coalesce` and
-- `detectNotebookType` of core.ts.
pub mod Boundary
use databricks_vscode.Prelude.{
  ℕ, ◌-◌, Bool, true, false, not, ◌&&◌, ◌||◌, Option, none, some, List, [], ◌∷◌, ◌++◌, Text, codes,
  same, starts_with, drop_prefix, lower_all, leb, ◌==◌, ◌+◌, if◌then◌else◌,
}

abbrev pub longer : ℕ → Option (Text × Text) → Option (Text × Text)
longer c none = none
longer c (some (before, rest)) = some (c ∷ before, rest)

-- `indexOf` and the two slices: what stands before the first boundary, and what behind it.
unfoldable pub cut : Text → Text → Option (Text × Text)
cut boundary [] = elim (drop_prefix boundary []) [ none ↦ none | some rest ↦ some ([], rest) ]
cut boundary (c ∷ s) = elim (drop_prefix boundary (c ∷ s)) [
  | some rest ↦ some ([], rest)
  | none ↦ longer c (cut boundary s)
]

pub record Envelope : Type 0 where
  pub stdout : Text
  pub error_payload : Option Text

abbrev pub envelope_of : Text → Option (Text × Text) → Envelope
envelope_of s none = record { stdout = s; error_payload = none }
envelope_of s (some (before, rest)) = record { stdout = before; error_payload = some rest }

unfoldable pub split_stdout_error_envelope : Text → Text → Envelope
unfolding cut
split_stdout_error_envelope s boundary = envelope_of s (cut boundary s)

-- `coalesce`: an empty text counts as absent.
unfoldable pub coalesce : List (Option Text) → Option Text
coalesce [] = none
coalesce (some (c ∷ s) ∷ values) = some (c ∷ s)
coalesce (_ ∷ values) = coalesce values

-- The closure of `createProgressReporter`: the last value reported and when, if one was.
-- `equal` is `===`.
module _ {T : Type 0} (equal : T → T → Bool) (heartbeat_ms : ℕ) where
  abbrev pub Reporter : Type 0
  Reporter = Option (T × ℕ)

  abbrev pub is_due : Reporter → T → ℕ → Bool
  is_due none value now = true
  is_due (some (last, at)) value now = not (equal value last) || leb heartbeat_ms (now - at)

  -- The new state, and whether the value is reported.
  unfoldable pub observe : T → ℕ → Reporter → Reporter × Bool
  observe value now r = if is_due r value now then (some (value, now), true) else (r, false)

  -- A sequence of values with their times, and those that are reported.
  unfoldable pub reports : Reporter → List (T × ℕ) → List (T × ℕ)
  unfolding observe
  reports r [] = []
  reports r ((value, now) ∷ later) =
      let (next, due) = observe value now r in
      let rest = reports next later in if due then (value, now) ∷ rest else rest

pub data NotebookType : Type 0 where
  ipynb py_dbnb other_dbnb : NotebookType

-- `ext.replace(/^\./, "")`
abbrev pub without_dot : Text → Text
without_dot [] = []
without_dot (c ∷ s) = if c == b'.' then s else c ∷ s

unfoldable pub comment_prefix : Text → Option Text
comment_prefix ext =
    if same ext (codes "py")
    then some (codes "#")
    else if same ext (codes "scala")
    then some (codes "//")
    else if same ext (codes "sql")
    then some (codes "--")
    else if same ext (codes "r")
    then some (codes "#")
    else none

-- A byte order mark at the start is dropped.
abbrev pub without_mark : Option Text → Text
without_mark none = []
without_mark (some []) = []
without_mark (some (c ∷ s)) = if c == 65279 then s else c ∷ s

unfoldable pub notebook_of : Text → Option Text → Text → Option NotebookType
notebook_of ext none line = none
notebook_of ext (some prefix) line =
    if starts_with line (prefix ++ codes " Databricks notebook source")
    then some (if same ext (codes "py") then py_dbnb else other_dbnb)
    else none

unfoldable pub detect_notebook_type : Text → Option Text → Option NotebookType
unfolding notebook_of comment_prefix
detect_notebook_type [] first_line = none
detect_notebook_type (c ∷ s) first_line =
    let ext = lower_all (without_dot (c ∷ s)) in
    if same ext (codes "ipynb")
    then some ipynb
    else notebook_of ext (comment_prefix ext) (without_mark first_line)
