-- ===== src/Base/Decimal.antt =====
-- Python's decimal prints of natural numbers: `str(n)`, `f'{n:03d}'` and `int(text)`.
use Prim.Native.Nat.{ℕ, zero, suc, ◌+◌, ◌-◌, ◌*◌, ◌/◌, ◌%◌}
use mathlib.Core.Bool.{Bool, ◌&&◌}
use mathlib.Core.List.{[], ◌∷◌, ◌++◌}
use claude_code_manager.Base.Tests.{nat_eq, leb, if◌then◌else◌}
use claude_code_manager.Base.Lists.{Text, length}

-- The digits of a number before `out`. As many rounds as the number itself are more than enough.
unfoldable pub digits_before : ℕ → ℕ → Text → Text
digits_before zero n out = out
digits_before (suc rounds) n out =
    let rest = digits_before rounds (n / 10) ((b'0' + n % 10) ∷ out) in
    if nat_eq n 0 then out else rest

unfoldable pub decimal : ℕ → Text
decimal n = if nat_eq n 0 then b'0' ∷ [] else digits_before n n []

abbrev pub zeros : ℕ → Text
zeros zero = []
zeros (suc n) = b'0' ∷ zeros n

-- Padded on the left with zeros to a width.
unfoldable pub padded : ℕ → ℕ → Text
padded width n = zeros (width - length (decimal n)) ++ decimal n

abbrev pub is_digit : ℕ → Bool
is_digit c = leb b'0' c && leb c b'9'

-- The number that a text of digits stands for, behind the digits read so far.
abbrev pub number_from : ℕ → Text → ℕ
number_from n [] = n
number_from n (c ∷ s) = number_from (n * 10 + (c - b'0')) s
