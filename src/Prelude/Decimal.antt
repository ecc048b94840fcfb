-- ===== src/Prelude/Decimal.antt =====
-- Decimal texts: `String(n)` and `parseInt(text, 10)` for natural numbers.
use Prim.Native.Nat.{ℕ, zero, suc, ◌+◌, ◌-◌, ◌*◌, ◌/◌, ◌%◌, ◌<◌}
use mathlib.Core.Path.{◌≡◌, refl}
use mathlib.Core.Bool.{Bool, true, ◌&&◌}
use mathlib.Core.List.{[], ◌∷◌, ◌++◌}
use native.Mathlib.Omega.{arith}
use databricks_vscode.Prelude.Tests.{ltb, leb, if◌then◌else◌, Bool-cases}
use mathlib.Core.Logic.{inl, inr}
use databricks_vscode.Prelude.Codes.{Text}

-- With fuel above the number every digit is written.
unfoldable pub digits_fuel : ℕ → ℕ → Text
digits_fuel zero n = []
digits_fuel (suc fuel) n =
    let rest = digits_fuel fuel (n / 10) ++ (b'0' + n % 10) ∷ [] in
    if ltb n 10 then (b'0' + n) ∷ [] else rest

unfoldable pub decimal : ℕ → Text
unfolding digits_fuel
decimal n = digits_fuel (suc n) n

unfoldable pub parse_from : ℕ → Text → ℕ
parse_from acc [] = acc
parse_from acc (c ∷ s) = parse_from (acc * 10 + (c - b'0')) s

unfoldable pub parse_decimal : Text → ℕ
unfolding parse_from
parse_decimal s = parse_from 0 s

abbrev pub is_digit : ℕ → Bool
is_digit c = leb b'0' c && leb c b'9'

abbrev pub all_digits : Text → Bool
all_digits [] = true
all_digits (c ∷ s) = is_digit c && all_digits s

parse_from-append :
    (acc : ℕ) (s : Text) (c : ℕ) → parse_from acc (s ++ c ∷ []) ≡ parse_from acc s * 10 + (c - b'0')
unfolding parse_from
parse_from-append acc [] c = refl
parse_from-append acc (d ∷ s) c = parse_from-append (acc * 10 + (d - b'0')) s c

parse-digits_fuel : (fuel n : ℕ) → n < fuel → parse_from 0 (digits_fuel fuel n) ≡ n
unfolding digits_fuel
parse-digits_fuel zero n h = absurd (omega arith)
parse-digits_fuel (suc fuel) n h = elim (Bool-cases (ltb n 10)) [
  | inl small ↦ rw small (unfold parse_from in omega arith)
  | inr large ↦ rw large (
      ground (
        arith,
        parse_from-append 0 (digits_fuel fuel (n / 10)) (b'0' + n % 10),
        parse-digits_fuel fuel (n / 10),
      ))
]

-- `parseInt(String(n), 10)` is `n`.
pub parse-decimal : (n : ℕ) → parse_decimal (decimal n) ≡ n
unfolding decimal parse_decimal
parse-decimal n = parse-digits_fuel (suc n) n (omega arith)

all_digits-append :
    (s t : Text) → all_digits s ≡ true → all_digits t ≡ true → all_digits (s ++ t) ≡ true
all_digits-append [] t h k = k
all_digits-append (c ∷ s) t h k = ground (arith, all_digits-append s t)

digits_fuel-digits : (fuel n : ℕ) → all_digits (digits_fuel fuel n) ≡ true
unfolding digits_fuel
digits_fuel-digits zero n = refl
digits_fuel-digits (suc fuel) n =
    let last : is_digit (b'0' + n % 10) ≡ true = ground arith in
    let rest =
      all_digits-append (digits_fuel fuel (n / 10)) ((b'0' + n % 10) ∷ [])
        (digits_fuel-digits fuel (n / 10)) (rw last refl) in
    elim (Bool-cases (ltb n 10)) [ inl small ↦ rw small (ground arith) | inr large ↦ rw large rest ]

-- `String(n)` has digits only.
pub all_digits-decimal : (n : ℕ) → all_digits (decimal n) ≡ true
unfolding decimal
all_digits-decimal n = digits_fuel-digits (suc n) n
