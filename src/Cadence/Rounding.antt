-- ===== src/Cadence/Rounding.antt =====
-- The arithmetic of doubles that are not negative, as multiples of 2 ^ -1074: a sum or a difference is
-- the exact one, rounded to 53 binary digits, to the even neighbour of two equally near ones.
use comfyui_docker_helper.Prelude.{
  ℕ, zero, suc, ◌+◌, ◌-◌, ◌*◌, ◌/◌, ◌%◌, ◌^◌, ltb, ◌==◌, ◌&&◌, ◌||◌, if◌then◌else◌,
}

-- The weight of the last digit, from `unit` on, on fuel.
unfoldable pub last_digit : ℕ → ℕ → ℕ → ℕ
last_digit zero unit n = unit
last_digit (suc fuel) unit n =
    let rest = last_digit fuel (2 * unit) n in if ltb (n / unit) (2 ^ 53) then unit else rest

unfoldable pub round_to : ℕ → ℕ → ℕ
round_to unit n =
    let below = n / unit in
    let left = n % unit in
    if ltb unit (2 * left) || ((unit == 2 * left) && (below % 2 == 1))
    then (below + 1) * unit
    else below * unit

-- A double has at most 2046 exponents, which is fuel enough.
unfoldable pub rounded : ℕ → ℕ
rounded n = round_to (last_digit 2046 1 n) n

unfoldable pub float_plus : ℕ → ℕ → ℕ
float_plus a b = rounded (a + b)

unfoldable pub float_minus : ℕ → ℕ → ℕ
float_minus a b = rounded (a - b)
