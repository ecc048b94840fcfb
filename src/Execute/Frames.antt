-- ===== src/Execute/Frames.antt =====
-- packages/databricks-vscode/src/run/ErrorParser.ts, `renderErrorEnvelope`, and the printing of a
-- frame in `main` of cli.ts. `JSON.parse` and `parseErrorResult` are parameters.
use databricks_vscode.Prelude.{ℕ, Option, none, some, List, [], ◌∷◌, ◌++◌, Text, codes, decimal}
use databricks_vscode.Execute.Bootstrap.{replace_first}

pub record Frame : Type 0 where
  pub file : Option Text
  pub line : Option ℕ
  pub text : Text

pub record TracebackFrame : Type 0 where
  pub file : Option Text
  pub line : Option ℕ
  pub name : Option Text
  pub text : Option Text

pub record ErrorEnvelope : Type 0 where
  pub kind : Text
  pub message : Text
  pub frames : List TracebackFrame

abbrev pub plain : Text → Frame
plain s = record { file = none; line = none; text = s }

-- A template literal writes an absent value as `undefined`.
abbrev pub text_or_undefined : Option Text → Text
text_or_undefined none = codes "undefined"
text_or_undefined (some s) = s

abbrev pub number_or_undefined : Option ℕ → Text
unfolding decimal
number_or_undefined none = codes "undefined"
number_or_undefined (some n) = decimal n

-- `value ? prefix + value : ""`
abbrev pub if_present : Text → Option Text → Text
if_present prefix none = []
if_present prefix (some []) = []
if_present prefix (some (c ∷ s)) = prefix ++ (c ∷ s)

unfoldable pub frame_text : TracebackFrame → Text
unfolding number_or_undefined
frame_text f =
    codes "  File \""
    ++ (text_or_undefined f.file
        ++ (codes "\", line "
            ++ (number_or_undefined f.line
                ++ (if_present (codes ", in ") f.name ++ if_present (10 ∷ codes "    ") f.text))))

abbrev pub of_frame : TracebackFrame → Frame
unfolding frame_text
of_frame f = record { file = f.file; line = f.line; text = frame_text f }

-- The last line is red.
unfoldable pub summary_line : ErrorEnvelope → Text
summary_line e =
    27 ∷ (codes "[0;31m" ++ (e.kind ++ (codes ": " ++ (e.message ++ (27 ∷ codes "[0m")))))

abbrev pub envelope_frames : List TracebackFrame → Frame → List Frame
unfolding of_frame
envelope_frames [] last = last ∷ []
envelope_frames (f ∷ fs) last = of_frame f ∷ envelope_frames fs last

-- `parse` is `JSON.parse`, which throws on some texts.
unfoldable pub render_error_envelope :
    (parse : Text → Option ErrorEnvelope) (trim : Text → Text) → Text → List Frame
unfolding envelope_frames summary_line
render_error_envelope parse trim payload = elim (parse payload) [
  | none ↦ plain (trim payload) ∷ []
  | some e ↦
      plain (codes "Traceback (most recent call last):")
      ∷ envelope_frames e.frames (plain (summary_line e))
]

-- `printTracebackFrame`: the line printed, with the remote file mapped to the local one if it has
-- one. `to_local` has no result for a file outside of the root.
unfoldable pub traceback_line : (to_local : Text → Option Text) → Frame → Text
unfolding replace_first
traceback_line to_local f = elim f.file [
  | none ↦ f.text
  | some [] ↦ f.text
  | some (c ∷ s) ↦ elim (to_local (c ∷ s)) [
    | none ↦ f.text
    | some [] ↦ f.text
    | some (d ∷ mapped) ↦ replace_first (c ∷ s) (d ∷ mapped) f.text
  ]
]
