-- ===== src/Klib/Stdlib.antt =====
-- abstract-machine/klib/src/stdlib.c, and `memmove` of string.c, which allocates. A failed `assert`
-- halts the machine and is `none`. A word of the target has 64 bits; `unsigned long` takes its width
-- as a parameter, since the library also runs on 32-bit targets.
pub mod Rand
pub mod Malloc
use nju_os_workbench.Base.{
  ℕ, zero, suc, ◌+◌, ◌-◌, ◌*◌, ◌/◌, ◌%◌, ◌^◌, Bool, true, false, ◌&&◌, Option, none, some, ◌==◌,
  leb, ltb, if◌then◌else◌,
}
use nju_os_workbench.Base.Memory.{Mem}
use nju_os_workbench.Klib.Strings.{memcpy, ◌>>=◌}

-- `next = next * 1103515245 + 12345`, where `unsigned long` has `bits` bits
abbrev pub rand_next : ℕ → ℕ → ℕ
rand_next bits next = (next * 1103515245 + 12345) % 2 ^ bits

-- the number returned, and the new state
unfoldable pub rand : ℕ → ℕ → ℕ × ℕ
rand bits next = let next' = rand_next bits next in (next' / 65536 % 2 ^ 32 % 32768, next')

-- the argument is an `unsigned int`
unfoldable pub srand : ℕ → ℕ
srand seed = seed

-- an `int` and its absolute value as 32-bit patterns
unfoldable pub abs : ℕ → ℕ
abs x = if ltb x (2 ^ 31) then x else (2 ^ 32 - x) % 2 ^ 32

-- `while (*nptr == ' ') nptr++`
unfoldable pub skip_spaces : ℕ → Mem → ℕ → Option ℕ
skip_spaces zero m p = none
skip_spaces (suc fuel) m p =
    let rest = skip_spaces fuel m (p + 1) in if m p == 32 then rest else some p

-- the loop over the digits; `x` is the 32-bit pattern of an `int`
unfoldable pub read_digits : ℕ → Mem → (p x : ℕ) → Option ℕ
read_digits zero m p x = none
read_digits (suc fuel) m p x =
    let rest = read_digits fuel m (p + 1) ((x * 10 + m p - 48) % 2 ^ 32) in
    if leb 48 (m p) && leb (m p) 57 then rest else some x

unfoldable pub atoi : ℕ → Mem → ℕ → Option ℕ
atoi fuel m nptr = do p ← skip_spaces fuel m nptr; read_digits fuel m p 0

-- `ROUNDUP(a, sz)` for a power of two `sz`, where the mask `~(sz - 1)` clears the low bits
unfoldable pub roundup : (a sz : ℕ) → ℕ
roundup a sz = (a + sz - 1) % 2 ^ 64 / sz * sz

-- the global `heap` of the abstract machine
pub record Area : Type 0 where
  pub start : ℕ
  pub stop : ℕ

-- the static variables of `malloc`
pub record Allocator : Type 0 where
  pub inited : Bool
  pub curr : ℕ

abbrev pub fresh_allocator : Allocator
fresh_allocator = record { inited = false; curr = 0 }

-- where the next block starts: `curr`, or the start of the heap on the first call
abbrev pub top : Area → Allocator → ℕ
top heap a = if a.inited then a.curr else roundup heap.start 8

unfoldable pub malloc : Area → Allocator → ℕ → Option (ℕ × Allocator)
unfolding roundup
malloc heap a size =
    let ret = top heap a in
    let curr = (ret + roundup size 8) % 2 ^ 64 in
    if leb heap.start curr && leb curr heap.stop
    then some (ret, record { inited = true; curr = curr })
    else none

-- `free` does nothing.
unfoldable pub free : Allocator → ℕ → Allocator
free a ptr = a

unfoldable pub memmove : Area → Allocator → Mem → (dst src n : ℕ) → Option (Mem × Allocator)
unfolding free
memmove heap a m dst src n = do
  (tmp, a') ← malloc heap a n
  let m' = memcpy m tmp src n
  some (memcpy m' dst tmp n, free a' tmp)
