-- ===== src/Prelude/Decimal.antt =====
-- `to_string` of an unsigned integer.
use Prim.Native.Nat.{ℕ, zero, suc, ◌+◌, ◌-◌, ◌*◌, ◌/◌, ◌%◌}
use mathlib.Core.Bool.{Bool, ◌&&◌}
use mathlib.Core.Option.{Option, none, some}
use mathlib.Core.List.{[], ◌∷◌, ◌++◌}
use llmtune.Prelude.Tests.{ltb, leb, if◌then◌else◌}
use llmtune.Prelude.Texts.{Text}

-- The fuel is above the number, which has fewer digits.
unfoldable pub digits : ℕ → ℕ → Text
digits zero n = []
digits (suc f) n =
    let high = digits f (n / 10) in
    if ltb n 10 then (b'0' + n) ∷ [] else high ++ (b'0' + n % 10) ∷ []

unfoldable pub show : ℕ → Text
unfolding digits
show n = digits (suc n) n

abbrev pub is_digit : ℕ → Bool
is_digit c = leb b'0' c && leb c b'9'

-- The digits behind the number read so far; above `max` is an overflow.
unfoldable pub read_digits : ℕ → ℕ → Text → Option ℕ
read_digits max n [] = some n
read_digits max n (c ∷ s) =
    let m = 10 * n + (c - b'0') in
    let rest = read_digits max m s in
    if is_digit c then (if leb m max then rest else none) else none
