-- ===== src/Prelude/Words.antt =====
-- `uint64` and `int64` arithmetic of the source (include/Types.H). A word is a number below 2 ^ 64;
-- an `int64` is its two's complement pattern, so the top bit is its sign.
use Prim.Native.Nat.{ℕ, ◌+◌, ◌-◌, ◌*◌, ◌%◌, ◌^◌}
use mathlib.Core.Bool.{Bool, ◌&&◌, ◌||◌}
use hmmsim_server.Prelude.Tests.{ltb, leb, ◌==◌}

abbrev pub word : ℕ
word = 2 ^ 64

abbrev pub sign_bit : ℕ
sign_bit = 2 ^ 63

abbrev pub add64 : ℕ → ℕ → ℕ
add64 a b = (a + b) % word

abbrev pub sub64 : ℕ → ℕ → ℕ
sub64 a b = (a + word - b) % word

abbrev pub mul64 : ℕ → ℕ → ℕ
mul64 a b = (a * b) % word

-- `x > 0` and `x <= 0` of an `int64`.
abbrev pub is_positive : ℕ → Bool
is_positive x = ltb 0 x && ltb x sign_bit

abbrev pub is_nonpositive : ℕ → Bool
is_nonpositive x = x == 0 || leb sign_bit x

-- `x > y` of two `int64`: the order of the patterns with the sign bit turned over.
abbrev pub greater_signed : ℕ → ℕ → Bool
greater_signed x y = ltb (add64 y sign_bit) (add64 x sign_bit)
