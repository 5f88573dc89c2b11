-- ===== src/Klib/Strings.antt =====
-- abstract-machine/klib/src/string.c over byte memory. A loop that stops at a NUL byte runs on
-- fuel, and `none` means that the fuel ran out; a loop over `n` bytes recurs on `n`.
pub mod Copy
pub mod Compare
use nju_os_workbench.Base.{
  ℕ, zero, suc, ◌+◌, ◌-◌, ◌%◌, Option, none, some, not, ◌||◌, ◌==◌, ltb, if◌then◌else◌,
}
use nju_os_workbench.Base.Int.{ℤ, pos, negsuc, ◌-ℤ◌}
use nju_os_workbench.Base.Memory.{Mem, store}

-- `do` chains over loops that may run out of fuel
infixl 5 ◌>>=◌
abbrev pub ◌>>=◌ : {A B : Type 0} → Option A → (A → Option B) → Option B
none >>= f = none
some a >>= f = f a

strlen_loop : ℕ → Mem → (s t : ℕ) → Option ℕ
strlen_loop zero m s t = none
strlen_loop (suc fuel) m s t =
    let rest = strlen_loop fuel m s (t + 1) in if m t == 0 then some (t - s) else rest

unfoldable pub strlen : ℕ → Mem → ℕ → Option ℕ
unfolding strlen_loop
strlen fuel m s = strlen_loop fuel m s s

-- `while (n--) *p++ = *q++`
unfoldable pub memcpy : Mem → (out inp n : ℕ) → Mem
memcpy m out inp zero = m
memcpy m out inp (suc n) = memcpy (store m out (m inp)) (out + 1) (inp + 1) n

unfoldable pub memset : Mem → (s c n : ℕ) → Mem
memset m s c zero = m
memset m s c (suc n) = memset (store m s (c % 256)) (s + 1) c n

unfoldable pub strcpy : ℕ → Mem → (dst src : ℕ) → Option Mem
strcpy fuel m dst src = do n ← strlen fuel m src; some (memcpy m dst src (n + 1))

-- Unlike the standard function it neither pads nor terminates.
unfoldable pub strncpy : Mem → (dst src n : ℕ) → Mem
strncpy m dst src zero = m
strncpy m dst src (suc n) =
    if m src == 0 then m else strncpy (store m dst (m src)) (dst + 1) (src + 1) n

unfoldable pub strcat : ℕ → Mem → (dst src : ℕ) → Option Mem
strcat fuel m dst src = do n ← strlen fuel m dst; strcpy fuel m (dst + n) src

-- a `char` as an `int`, on a target where `char` is signed (x86)
unfoldable pub schar : ℕ → ℤ
schar b = if ltb b 128 then pos b else negsuc (255 - b)

unfoldable pub strcmp : ℕ → Mem → (s1 s2 : ℕ) → Option ℤ
unfolding schar
strcmp zero m s1 s2 = none
strcmp (suc fuel) m s1 s2 =
    let rest = strcmp fuel m (s1 + 1) (s2 + 1) in
    if m s1 == m s2
    then if m s1 == 0 then some (pos 0) else rest
    else some (schar (m s1) -ℤ schar (m s2))

unfoldable pub strncmp : Mem → (s1 s2 n : ℕ) → ℤ
unfolding schar
strncmp m s1 s2 zero = pos 0
strncmp m s1 s2 (suc n) =
    if not (m s1 == m s2) || (m s1 == 0)
    then schar (m s1) -ℤ schar (m s2)
    else strncmp m (s1 + 1) (s2 + 1) n

unfoldable pub memcmp : Mem → (s1 s2 n : ℕ) → ℤ
memcmp m s1 s2 zero = pos 0
memcmp m s1 s2 (suc n) =
    if m s1 == m s2 then memcmp m (s1 + 1) (s2 + 1) n else pos (m s1) -ℤ pos (m s2)
