-- ===== src/Base/Text.antt =====
-- C strings: lists of byte values without the terminating NUL.
use Prim.Native.Nat.{ℕ, ◌≤◌}
use Prim.Native.Char.{code}
use Prim.Native.String.{String}
use mathlib.Core.Path.{◌≡◌, refl}
use mathlib.Core.Bool.{Bool, true, false, ◌&&◌}
use mathlib.Core.List.{List, [], ◌∷◌}
use native.Mathlib.Omega.{arith}
use halmos.Base.Tests.{◌==◌, if◌then◌else◌}
use halmos.Base.Lists.{length}

-- The bytes of a literal, which is ASCII.
abbrev pub codes : String → List ℕ
codes String.[] = []
codes (String.◌∷◌ c s) = code c ∷ codes s

-- `strcmp(s, t) == 0`.
unfoldable pub streq : List ℕ → List ℕ → Bool
streq [] [] = true
streq (a ∷ s) (b ∷ t) = (a == b) && streq s t
streq [] (b ∷ t) = false
streq (a ∷ s) [] = false

pub streq-eq : (s t : List ℕ) → streq s t ≡ true → s ≡ t
unfolding streq
streq-eq [] [] h = refl
streq-eq (a ∷ s) (b ∷ t) h = ground (arith, streq-eq s t)
streq-eq [] (b ∷ t) h = cc
streq-eq (a ∷ s) [] h = cc

pub streq_refl : (s : List ℕ) → streq s s ≡ true
unfolding streq
streq_refl [] = refl
streq_refl (a ∷ s) = ground (arith, streq_refl s)

-- The C string at the head of a buffer: what stands before its first NUL.
unfoldable pub c_string : List ℕ → List ℕ
c_string [] = []
c_string (b ∷ bs) = if b == 0 then [] else b ∷ c_string bs

pub length-c_string-le : (bs : List ℕ) → length (c_string bs) ≤ length bs
unfolding c_string
length-c_string-le [] = omega arith
length-c_string-le (b ∷ bs) = ground (arith, length-c_string-le bs)

-- `strncmp(s, prefix, strlen(prefix)) == 0`.
unfoldable pub starts_with : List ℕ → List ℕ → Bool
starts_with s [] = true
starts_with [] (p ∷ ps) = false
starts_with (a ∷ s) (p ∷ ps) = (a == p) && starts_with s ps
