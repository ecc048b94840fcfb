-- ===== src/Sync/Reports.antt =====
-- What the callback hears of a chunk of the output.
use databricks_vscode.Prelude.{
  ℕ, zero, suc, ◌≡◌, refl, ap, sym, ◌∙◌, Bool-cases, true, false, not, Option, none, some, List, [],
  ◌∷◌, Text, codes, same, has, contains, drop_prefix, length, split_lines, Option-cases, inl, inr,
  arith, if◌then◌else◌,
}
use databricks_vscode.Sync.{
  SyncState, in_progress, watching, Report, state_is, workspace_files_disabled,
  repos_files_disabled, failed, dots, Event, start, progress, complete, other_event, Parser,
  trimmed, match_for_errors, process_event, process_line, process_lines, process_stdout,
}

-- The part of a text in front of its first line end of any kind: a line feed, a carriage return, a
-- line separator or a paragraph separator.
pub first_line : Text → Text
first_line [] = []
first_line (c ∷ s) =
    let ends = has c (10 ∷ 13 ∷ 8232 ∷ 8233 ∷ []) in
    let rest = first_line s in if ends then [] else c ∷ rest

-- The code units in front of a position, and those behind it.
abbrev pub take : ℕ → Text → Text
take zero s = []
take (suc n) [] = []
take (suc n) (c ∷ s) = c ∷ take n s

abbrev pub drop : ℕ → Text → Text
drop zero s = s
drop (suc n) [] = []
drop (suc n) (c ∷ s) = drop n s

-- What a line tells that starts with the word of an error: the setting that is disabled, or else the
-- rest of the line.
pub error_of : Text → Option Report
error_of line =
    let reason = first_line (drop 7 line) in
    if not (same (take 7 line) (codes "Error: "))
    then none
    else if contains reason (codes "Files in Workspace is disabled")
    then some workspace_files_disabled
    else if contains reason (codes "Files in Repos is disabled")
    then some repos_files_disabled
    else some (failed reason)

-- The report of the first line that is an error.
pub first_error : List Text → Option Report
first_error [] = none
first_error (line ∷ lines) = elim (error_of line) [ none ↦ first_error lines | some r ↦ some r ]

abbrev pub state_after : Option Event → SyncState → SyncState
state_after (some (start puts deletes)) s = in_progress
state_after (some complete) s = watching
state_after _ s = s

-- The state that the last line that names one leaves.
abbrev pub last_state : (Text → Option Event) → List Text → SyncState → SyncState
last_state parse [] s = s
last_state parse ([] ∷ lines) s = last_state parse lines s
last_state parse ((c ∷ line) ∷ lines) s = last_state parse lines (state_after (parse (c ∷ line)) s)

abbrev pub report_or : Option Report → Report → Report
report_or none r = r
report_or (some e) r = e

first_line-dots : (s : Text) → dots s ≡ first_line s
unfolding dots first_line
first_line-dots [] = refl
first_line-dots (c ∷ s) = ground (arith, first_line-dots s)

-- A prefix is dropped exactly if the text starts with it.
dropped :
    (prefix s : Text) (n : ℕ)
    → length prefix ≡ n
    → drop_prefix prefix s ≡ (if same (take n s) prefix then some (drop n s) else none)
dropped [] s zero h = ground arith
dropped [] s (suc n) h = cc
dropped (c ∷ prefix) s zero h = absurd (omega arith)
dropped (c ∷ prefix) [] (suc n) h = refl
dropped (c ∷ prefix) (d ∷ s) (suc n) h = ground (arith, dropped prefix s n)

match_for_errors-error_of : (line : Text) → match_for_errors line ≡ error_of line
unfolding match_for_errors error_of
match_for_errors-error_of line =
    let e = dropped (codes "Error: ") line 7 refl in
    elim (Bool-cases (same (take 7 line) (codes "Error: "))) [
      | inl y ↦
          let f : drop_prefix (codes "Error: ") line ≡ some (drop 7 line) = e ∙ rw y refl in
          rw (match_for_errors, f) (rw (y, first_line-dots (drop 7 line)) refl)
      | inr n ↦
          let f : drop_prefix (codes "Error: ") line ≡ none = e ∙ rw n refl in
          rw (match_for_errors, f) (rw n refl)
    ]

-- An empty line is no error.
first_error-nil : (lines : List Text) → first_error ([] ∷ lines) ≡ first_error lines
unfolding first_error error_of
first_error-nil lines = refl

event_reported :
    (e : Event) (p : Parser)
    → ((process_event e p).reported ≡ p.reported)
      × ((process_event e p).state ≡ state_after (some e) p.state)
unfolding process_event
event_reported (start puts deletes) p = (refl, refl)
event_reported (progress action path true) p = (refl, refl)
event_reported (progress action path false) p = (refl, refl)
event_reported complete p = (refl, refl)
event_reported other_event p = (refl, refl)

module _ (parse : Text → Option Event) where
  line_reported :
      (line : Text) (p : Parser)
      → ((process_line parse line p).reported ≡ p.reported)
        × ((process_line parse line p).state ≡ state_after (parse line) p.state)
  unfolding process_line
  line_reported line p = elim (Option-cases (parse line)) [
    | inl bad ↦ rw (process_line, bad) (refl, refl)
    | inr (e, good) ↦ rw (process_line, good) (event_reported e p)
  ]

  lines_reported :
      (lines : List Text) (p : Parser)
      → (process_lines parse lines p).reported
        ≡ report_or (first_error lines) (state_is (last_state parse lines p.state)) ∷ p.reported
  unfolding process_lines first_error
  lines_reported [] p = refl
  lines_reported ([] ∷ lines) p =
      lines_reported lines p
      ∙ ap (λ e. report_or e (state_is (last_state parse lines p.state)) ∷ p.reported)
          (sym (first_error-nil lines))
  lines_reported ((c ∷ line) ∷ lines) p =
      let (same_reports, new_state) = line_reported (c ∷ line) p in
      let same_error = sym (match_for_errors-error_of (c ∷ line)) in
      elim (Option-cases (match_for_errors (c ∷ line))) [
        | inl fine ↦
            rw (process_lines, first_error, fine, same_error ∙ fine)
              (rw (lines_reported lines (process_line parse (c ∷ line) p), same_reports, new_state)
                refl)
        | inr (r, wrong) ↦
            rw (process_lines, first_error, wrong, same_error ∙ wrong) (rw same_reports refl)
      ]

  -- Each chunk of the output makes exactly one report: that of the first line that starts with
  -- `Error: `, or, if none does, the state that the last start or completion among the lines leaves.
  -- The report of an error names the disabled setting, or else the text of that line, both looked
  -- for only in front of a line end of any kind.
  pub stdout_reported :
      (chunk : Text) (p : Parser)
      → let lines = trimmed (split_lines chunk) in
        (process_stdout parse chunk p).reported
        ≡ report_or (first_error lines) (state_is (last_state parse lines p.state)) ∷ p.reported
  unfolding process_stdout
  stdout_reported chunk p = lines_reported (trimmed (split_lines chunk)) p
