-- ===== src/Base/Memory.antt =====
-- Byte-addressed memory, as the C code of the repository sees it: a byte at every address.
use Prim.Native.Nat.{ℕ, zero, suc, ◌+◌}
use mathlib.Core.Path.{◌≡◌}
use mathlib.Core.Logic.{◌≢◌}
use mathlib.Core.List.{List, [], ◌∷◌}
use nju_os_workbench.Base.Tests.{◌==◌, if◌then◌else◌}

abbrev pub Mem : Type 0
Mem = ℕ → ℕ

-- `*p = v`
unfoldable pub store : Mem → ℕ → ℕ → Mem
store m p v q = if p == q then v else m q

-- a C string: its bytes, none of them NUL, and the terminator
abbrev pub IsString : Mem → ℕ → List ℕ → Type 0
IsString m p [] = m p ≡ 0
IsString m p (x ∷ xs) = (m p ≡ x) × (x ≢ 0) × IsString m (p + 1) xs

-- the `n` bytes from address `p` on
unfoldable pub slice : Mem → ℕ → ℕ → List ℕ
slice m p zero = []
slice m p (suc n) = m p ∷ slice m (p + 1) n
