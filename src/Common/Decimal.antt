-- ===== src/Common/Decimal.antt =====
-- `usize::to_string`: decimal digits by fuel, with the proof that the fuel is enough.
use Prim.Native.Nat.{ℕ, zero, suc, ◌+◌, ◌-◌, ◌*◌, ◌/◌, ◌%◌, ◌≤◌, ◌<◌}
use mathlib.Core.Path.{◌≡◌, ◌∙◌}
use mathlib.Core.List.{[], ◌∷◌}
use native.Mathlib.Omega.{arith}
use midnight_did_rs.Common.Tests.{ltb, if◌then◌else◌}
use midnight_did_rs.Common.Texts.{Text}

digits : ℕ → ℕ → Text → Text
digits zero n out = out
digits (suc fuel) n out =
    let rest = digits fuel (n / 10) ((b'0' + n % 10) ∷ out) in
    if ltb n 10 then (b'0' + n) ∷ out else rest

unfoldable pub decimal : ℕ → Text
unfolding digits
decimal n = digits (suc n) n []

-- The number that digits spell behind `n`.
abbrev pub read_decimal : ℕ → Text → ℕ
read_decimal n [] = n
read_decimal n (c ∷ s) = read_decimal (n * 10 + (c - b'0')) s

read-digits :
    (fuel n : ℕ) (out : Text)
    → n ≤ fuel
    → read_decimal 0 (digits (suc fuel) n out) ≡ read_decimal n out
unfolding digits
read-digits zero n out h = ground arith
read-digits (suc fuel) n out h = ground (arith, read-digits fuel (n / 10) ((b'0' + n % 10) ∷ out))

-- The digits read back as the number, so distinct numbers have distinct texts.
pub read-decimal : (n : ℕ) → read_decimal 0 (decimal n) ≡ n
unfolding decimal
read-decimal n = read-digits n n [] (omega arith)

digits_last : (fuel n : ℕ) (out : Text) → n < 10 → digits (suc fuel) n out ≡ (b'0' + n) ∷ out
unfolding digits
digits_last fuel n out h = ground arith

digits_more :
    (fuel n : ℕ) (out : Text)
    → 10 ≤ n
    → digits (suc fuel) n out ≡ digits fuel (n / 10) ((b'0' + n % 10) ∷ out)
unfolding digits
digits_more fuel n out h = ground arith

pub decimal_one : (n : ℕ) → n < 10 → decimal n ≡ (b'0' + n) ∷ []
unfolding decimal
decimal_one n h = digits_last n n [] h

pub decimal_two : (n : ℕ) → 10 ≤ n → n < 100 → decimal n ≡ (b'0' + n / 10) ∷ (b'0' + n % 10) ∷ []
unfolding decimal
decimal_two zero l h = absurd (omega arith)
decimal_two (suc n) l h =
    digits_more (suc n) (suc n) [] l ∙ digits_last n (suc n / 10) _ (omega arith)

pub decimal_four :
    (n : ℕ)
    → 1000 ≤ n
    → n < 10000
    → decimal n
      ≡ (b'0' + n / 10 / 10 / 10)
        ∷ (b'0' + n / 10 / 10 % 10)
        ∷ (b'0' + n / 10 % 10)
        ∷ (b'0' + n % 10)
        ∷ []
unfolding decimal
decimal_four zero l h = absurd (omega arith)
decimal_four (suc zero) l h = absurd (omega arith)
decimal_four (suc (suc zero)) l h = absurd (omega arith)
decimal_four (suc (suc (suc k))) l h =
    let n = suc (suc (suc k)) in
    digits_more n n [] (omega arith)
    ∙ digits_more (suc (suc k)) (n / 10) _ (omega arith)
    ∙ digits_more (suc k) (n / 10 / 10) _ (omega arith)
    ∙ digits_last k (n / 10 / 10 / 10) _ (omega arith)
