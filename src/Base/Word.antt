-- ===== src/Base/Word.antt =====
-- Machine integers: `size_t` is 64 bits wide, `int` 32.
use Prim.Native.Nat.{ℕ, ◌+◌, ◌-◌, ◌%◌, ◌^◌}
use mini_distributed_storage.Base.Tests.{ltb, if◌then◌else◌}

abbrev pub size_mod : ℕ
size_mod = 2 ^ 64

-- `a + b` and `a - b` of two `size_t`s.
abbrev pub add_size : ℕ → ℕ → ℕ
add_size a b = (a + b) % size_mod

abbrev pub sub_size : ℕ → ℕ → ℕ
sub_size a b = (a + size_mod - b) % size_mod

-- `static_cast<size_t>` of the `int32_t` with the bit pattern `w`.
abbrev pub size_of_int : ℕ → ℕ
size_of_int w = if ltb w (2 ^ 31) then w else w + size_mod - 2 ^ 32

-- The rounds of `for (int i = 0; i < (int) n; i++)`.
abbrev pub int_rounds : ℕ → ℕ
int_rounds n = if ltb (n % 2 ^ 32) (2 ^ 31) then n % 2 ^ 32 else 0
