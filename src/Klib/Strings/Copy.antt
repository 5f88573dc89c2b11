-- ===== src/Klib/Strings/Copy.antt =====
-- What the copying functions of abstract-machine/klib/src/string.c leave in memory.
use nju_os_workbench.Base.{
  ℕ, zero, suc, ◌+◌, ◌-◌, ◌%◌, ◌≤◌, ◌<◌, ◌≡◌, ◌⊎◌, ap, ◌∙◌, some, List, [], ◌∷◌, ◌++◌, ◌&&◌, arith,
  ltb, leb, if◌then◌else◌, length, min,
}
use nju_os_workbench.Base.Memory.{Mem, store, IsString}
use nju_os_workbench.Klib.Strings.{strlen_loop, strlen, memcpy, memset, strcpy, strncpy, strcat}

strlen_loop-IsString :
    (fuel : ℕ) (m : Mem) (s t : ℕ) (xs : List ℕ)
    → IsString m t xs
    → s ≤ t
    → length xs < fuel
    → strlen_loop fuel m s t ≡ some (t - s + length xs)
unfolding strlen_loop
strlen_loop-IsString zero m s t xs h le lt = absurd (omega arith)
strlen_loop-IsString (suc fuel) m s t [] h le lt = ground arith
strlen_loop-IsString (suc fuel) m s t (x ∷ xs) h le lt =
    ground (arith, strlen_loop-IsString fuel m s (t + 1) xs h.2)

-- On a C string, with fuel for each byte and the terminator, `strlen` returns the number of bytes
-- before the terminator.
pub strlen-IsString :
    (fuel : ℕ) (m : Mem) (s : ℕ) (xs : List ℕ)
    → IsString m s xs
    → length xs < fuel
    → strlen fuel m s ≡ some (length xs)
unfolding strlen
strlen-IsString fuel m s xs h lt =
    strlen_loop-IsString fuel m s s xs h (omega arith) lt ∙ ap some (omega arith)

-- When the destination does not start inside the source, `memcpy` puts the source's old bytes in
-- the destination and changes no other byte.
pub memcpy_lem :
    (m : Mem) (out inp n : ℕ)
    → (out ≤ inp) ⊎ (inp + n ≤ out)
    → (q : ℕ)
    → memcpy m out inp n q ≡ (if leb out q && ltb q (out + n) then m (inp + (q - out)) else m q)
unfolding memcpy store
memcpy_lem m out inp zero apart q = ground arith
memcpy_lem m out inp (suc n) apart q =
    ground (arith, memcpy_lem (store m out (m inp)) (out + 1) (inp + 1) n (omega arith) q)

-- `memset` writes the low byte of `c` over the `n` bytes from `s` on, and changes no other byte.
pub memset_lem :
    (m : Mem) (s c n q : ℕ) → memset m s c n q ≡ (if leb s q && ltb q (s + n) then c % 256 else m q)
unfolding memset store
memset_lem m s c zero q = ground arith
memset_lem m s c (suc n) q = ground (arith, memset_lem (store m s (c % 256)) (s + 1) c n q)

-- A string survives any change outside its bytes and terminator.
pub IsString-frame :
    (m g : Mem) (p : ℕ) (xs : List ℕ)
    → IsString m p xs
    → ((q : ℕ) → p ≤ q → q ≤ p + length xs → g q ≡ m q)
    → IsString g p xs
IsString-frame m g p [] h same = same p (omega arith) (omega arith) ∙ h
IsString-frame m g p (x ∷ xs) h same = (
  same p (omega arith) (omega arith) ∙ h.0,
  h.1,
  IsString-frame m g (p + 1) xs h.2 (λ q lo hi. same q (omega arith) (omega arith)),
)

-- A string read at another address of another memory.
pub IsString-move :
    (m g : Mem) (p r : ℕ) (xs : List ℕ)
    → IsString m p xs
    → ((i : ℕ) → i ≤ length xs → g (r + i) ≡ m (p + i))
    → IsString g r xs
IsString-move m g p r [] h same = ground (arith, same 0)
IsString-move m g p r (x ∷ xs) h same = (
  ground (arith, same 0),
  h.1,
  IsString-move m g (p + 1) (r + 1) xs h.2 (λ i le. ground (arith, same (i + 1))),
)

-- A string whose terminator is overwritten by another string is the concatenation.
IsString-join :
    (m g : Mem) (p : ℕ) (xs ys : List ℕ)
    → IsString m p xs
    → ((q : ℕ) → p ≤ q → q < p + length xs → g q ≡ m q)
    → IsString g (p + length xs) ys
    → IsString g p (xs ++ ys)
IsString-join m g p [] ys h same t = let e : p + 0 ≡ p = omega arith in rw e at t
IsString-join m g p (x ∷ xs) ys h same t = (
  ground (arith, same p),
  h.1,
  IsString-join m g (p + 1) xs ys h.2 (λ q lo hi. same q (omega arith) (omega arith))
      (let e : p + suc (length xs) ≡ p + 1 + length xs = omega arith in rw e at t),
)

-- `strcpy` from a string, to a place that does not start inside it, ends; the destination is then
-- the same string, and the bytes of the string and its terminator are the only ones that it writes.
pub strcpy-IsString :
    (fuel : ℕ) (m : Mem) (dst src : ℕ) (xs : List ℕ)
    → IsString m src xs
    → length xs < fuel
    → (dst ≤ src) ⊎ (src + length xs < dst)
    → (g : Mem) × (strcpy fuel m dst src ≡ some g)
      × IsString g dst xs
      × ((q : ℕ)
          → g q ≡ (if leb dst q && leb q (dst + length xs) then m (src + (q - dst)) else m q))
unfolding strcpy
strcpy-IsString fuel m dst src xs h lt apart = (
  memcpy m dst src (length xs + 1),
  rw (strlen-IsString fuel m src xs h lt),
  IsString-move m _ src dst xs h
      (λ i le. ground (arith, memcpy_lem m dst src (length xs + 1) (omega arith) (dst + i))),
  λ q. ground (arith, memcpy_lem m dst src (length xs + 1) (omega arith) q),
)

-- `strcat` of two strings, where the source overlaps neither the destination nor the room behind
-- it, ends; the destination is then their concatenation, and only the bytes from the old terminator
-- to the new one are written.
pub strcat-append :
    (fuel : ℕ) (m : Mem) (dst src : ℕ) (xs ys : List ℕ)
    → IsString m dst xs
    → IsString m src ys
    → length xs < fuel
    → length ys < fuel
    → (src + length ys < dst) ⊎ (dst + length xs + length ys < src)
    → (g : Mem) × (strcat fuel m dst src ≡ some g)
      × IsString g dst (xs ++ ys)
      × ((q : ℕ)
          → g q ≡ (
              if leb (dst + length xs) q && leb q (dst + length xs + length ys)
              then m (src + (q - (dst + length xs)))
              else m q))
unfolding strcat
strcat-append fuel m dst src xs ys hx hy fx fy apart =
    let (g, run, is, same) = strcpy-IsString fuel m (dst + length xs) src ys hy fy (omega arith) in
    (
      g,
      rw (strlen-IsString fuel m dst xs hx fx) run,
      IsString-join m g dst xs ys hx (λ q lo hi. ground (arith, same q)) is,
      same,
    )

-- `strncpy` from a string, to a place that does not start inside it, copies the first `n` bytes of
-- the string, or all of them if it is shorter; it changes no other byte, so it neither pads nor
-- writes a terminator.
pub strncpy_lem :
    (m : Mem) (dst src n : ℕ) (xs : List ℕ)
    → IsString m src xs
    → (dst ≤ src) ⊎ (src + length xs < dst)
    → (q : ℕ)
    → strncpy m dst src n q
      ≡ (if leb dst q && ltb q (dst + min n (length xs)) then m (src + (q - dst)) else m q)
unfolding strncpy store
strncpy_lem m dst src zero xs h apart q = ground arith
strncpy_lem m dst src (suc n) [] h apart q = ground arith
strncpy_lem m dst src (suc n) (x ∷ xs) h apart q =
    let kept : IsString (store m dst (m src)) (src + 1) xs =
      IsString-frame m _ (src + 1) xs h.2 (λ r lo hi. ground arith) in
    ground (arith, strncpy_lem (store m dst (m src)) (dst + 1) (src + 1) n xs kept (omega arith) q)
