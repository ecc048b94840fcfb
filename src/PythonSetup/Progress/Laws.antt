-- ===== src/PythonSetup/Progress/Laws.antt =====
-- Which phase the line shows when, and what its clock says.
use databricks_vscode.Prelude.{
  ℕ, ◌+◌, ◌-◌, ◌*◌, ◌/◌, ◌%◌, ◌<◌, ◌≡◌, refl, true, false, [], ◌∷◌, ◌++◌, Text, ltb, decimal, ◌==◌,
  ◌∙◌, if◌then◌else◌, arith, all_digits, all_digits-decimal, parse_from, parse_decimal,
  parse-decimal,
}
use databricks_vscode.PythonSetup.Progress.{
  Milliseconds, whole, leading_phases, provision_steps, get_elem?, clamp_elapsed, pad,
  format_elapsed, setup_progress_phase,
}

leading_at :
    (k r : ℕ)
    → r < 3500
    → k < 4
    → setup_progress_phase (whole (k * 3500 + r)) ≡ get_elem? leading_phases k
unfolding setup_progress_phase
leading_at k r h hk =
    let early : ltb (k * 3500 + r) 14000 ≡ true = ground arith in
    let index : (k * 3500 + r) / 3500 ≡ k = omega arith in rw (early, index) refl

provision_at :
    (j round q : ℕ)
    → q < 6000
    → j < 6
    → setup_progress_phase (whole (14000 + ((round * 6 + j) * 6000 + q)))
      ≡ get_elem? provision_steps j
unfolding setup_progress_phase
provision_at j round q h hj =
    let late : ltb (14000 + ((round * 6 + j) * 6000 + q)) 14000 ≡ false = ground arith in
    let index : (14000 + ((round * 6 + j) * 6000 + q) - 14000) / 6000 % 6 ≡ j = omega arith in
    rw (late, index) refl

-- In the k-th stretch of 3.5 seconds, from the zeroth on, the line shows the k-th of the four
-- leading phases; behind them, in the j-th stretch of six seconds of any round of six, it shows
-- the j-th step of the provision.
pub phase_schedule :
    (k j round r q : ℕ)
    → r < 3500
    → q < 6000
    → k < 4
    → j < 6
    → (setup_progress_phase (whole (k * 3500 + r)) ≡ get_elem? leading_phases k)
      × (setup_progress_phase (whole (14000 + ((round * 6 + j) * 6000 + q)))
          ≡ get_elem? provision_steps j)
phase_schedule k j round r q h hq hk hj = (leading_at k r h hk, provision_at j round q hq hj)

-- The seconds that a clock `m:ss` shows.
pub read_clock : ℕ → Text → ℕ
read_clock minutes [] = 0
read_clock minutes (c ∷ s) =
    let more = read_clock (minutes * 10 + (c - b'0')) s in
    if c == b':' then minutes * 60 + parse_decimal s else more

read_clock-append :
    (minutes : ℕ) (s t : Text)
    → all_digits s ≡ true
    → read_clock minutes (s ++ b':' ∷ t) ≡ parse_from minutes s * 60 + parse_decimal t
unfolding read_clock parse_from
read_clock-append minutes [] t h = refl
read_clock-append minutes (c ∷ s) t h =
    let digit : (c == b':') ≡ false = ground arith in
    rw digit (read_clock-append (minutes * 10 + (c - b'0')) s t (ground arith))

parse_decimal-pad : (s : Text) → parse_decimal (pad s) ≡ parse_decimal s
unfolding parse_decimal
parse_decimal-pad [] = unfold parse_from in refl
parse_decimal-pad (c ∷ []) = unfold parse_from in refl
parse_decimal-pad (c ∷ d ∷ s) = refl

clock_sum : (n m s : ℕ) → m ≡ n / 60 → s ≡ n % 60 → m * 60 + s ≡ n
clock_sum n m s h k = omega arith

-- The clock shows the whole seconds of the elapsed time, none for a negative or non-finite time.
pub read-format_elapsed :
    (ms : Milliseconds) → read_clock 0 (format_elapsed ms) ≡ clamp_elapsed ms / 1000
unfolding format_elapsed parse_decimal
read-format_elapsed ms =
    let total = clamp_elapsed ms / 1000 in
    read_clock-append 0 (decimal (total / 60)) (pad (decimal (total % 60)))
      (all_digits-decimal (total / 60))
    ∙ clock_sum total (parse_decimal (decimal (total / 60)))
        (parse_decimal (pad (decimal (total % 60)))) (parse-decimal (total / 60))
        (parse_decimal-pad (decimal (total % 60)) ∙ parse-decimal (total % 60))
