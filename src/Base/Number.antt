-- ===== src/Base/Number.antt =====
-- `(int) strtol(s, NULL, 10)`, as the C standard and an LP64 machine have it.
use Prim.Native.Nat.{ℕ, ◌+◌, ◌-◌, ◌*◌, ◌%◌, ◌^◌}
use mathlib.Core.Bool.{Bool, ◌&&◌, ◌||◌}
use mathlib.Core.List.{List, [], ◌∷◌}
use halmos.Base.Tests.{◌==◌, ltb, leb, if◌then◌else◌}
use halmos.Base.Int.{ℤ, pos, negsuc}

-- `isspace` in the C locale.
unfoldable pub isspace : ℕ → Bool
isspace c = (c == 32) || (leb 9 c && leb c 13)

unfoldable pub skip_space : List ℕ → List ℕ
unfolding isspace
skip_space [] = []
skip_space (c ∷ s) = if isspace c then skip_space s else c ∷ s

unfoldable pub isdigit : ℕ → Bool
isdigit c = leb b'0' c && leb c b'9'

unfoldable pub digits_value : ℕ → List ℕ → ℕ
unfolding isdigit
digits_value acc [] = acc
digits_value acc (c ∷ s) =
    let more = digits_value (acc * 10 + (c - b'0')) s in if isdigit c then more else acc

-- The low 32 bits of a two's complement number, read as an `int`.
unfoldable pub to_int : ℕ → ℤ
to_int n = let low = n % 2 ^ 32 in if ltb low (2 ^ 31) then pos low else negsuc (2 ^ 32 - low - 1)

-- Past the range of a `long` the value is the nearest end of it.
unfoldable pub signed_value : List ℕ → ℤ
unfolding digits_value to_int
signed_value [] = pos 0
signed_value (c ∷ s) =
    let magnitude = digits_value 0 s in
    if c == b'-'
    then to_int (2 ^ 64 - (if ltb (2 ^ 63) magnitude then 2 ^ 63 else magnitude))
    else (let n = if c == b'+' then magnitude else digits_value 0 (c ∷ s) in
        to_int (if ltb n (2 ^ 63) then n else 2 ^ 63 - 1))

unfoldable pub strtol_int : List ℕ → ℤ
unfolding skip_space signed_value
strtol_int s = signed_value (skip_space s)
