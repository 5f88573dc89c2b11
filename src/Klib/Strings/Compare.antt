-- ===== src/Klib/Strings/Compare.antt =====
-- What the comparing functions of abstract-machine/klib/src/string.c return.
use nju_os_workbench.Base.{
  ℕ, zero, suc, ◌+◌, ◌<◌, ◌≡◌, refl, ◌↔◌, ap, ap₂, ◌∙◌, some, List, [], ◌∷◌, arith, ◌==◌,
  if◌then◌else◌, length, take, ==_iff, Bool-cases, inl, inr, ◌⊎◌, ◌≢◌, sym,
}
use nju_os_workbench.Base.Int.{ℤ, pos, ◌-ℤ◌}
use nju_os_workbench.Base.Memory.{Mem, IsString, slice}
use nju_os_workbench.Klib.Strings.{strcmp, strncmp, memcmp, schar}

-- every byte is below 256
abbrev pub IsBytes : List ℕ → Type 0
IsBytes [] = Unit
IsBytes (x ∷ xs) = (x < 256) × IsBytes xs

-- the order of two strings: the difference, as signed characters, at the first place where they
-- differ, where a string that ends counts as a NUL byte
pub order : List ℕ → List ℕ → ℤ
order [] [] = pos 0
order [] (y ∷ ys) = schar 0 -ℤ schar y
order (x ∷ xs) [] = schar x -ℤ schar 0
order (x ∷ xs) (y ∷ ys) = if x == y then order xs ys else schar x -ℤ schar y

-- With fuel for the shorter string, `strcmp` of two strings returns their order.
pub strcmp-order :
    (fuel : ℕ) (m : Mem) (s1 s2 : ℕ) (xs ys : List ℕ)
    → IsString m s1 xs
    → IsString m s2 ys
    → length xs < fuel
    → strcmp fuel m s1 s2 ≡ some (order xs ys)
unfolding strcmp order
strcmp-order zero m s1 s2 xs ys hx hy lt = absurd (omega arith)
strcmp-order (suc fuel) m s1 s2 [] [] hx hy lt = ground arith
strcmp-order (suc fuel) m s1 s2 [] (y ∷ ys) hx hy lt = ground arith
strcmp-order (suc fuel) m s1 s2 (x ∷ xs) [] hx hy lt = ground arith
strcmp-order (suc fuel) m s1 s2 (x ∷ xs) (y ∷ ys) hx hy lt =
    ground (arith, strcmp-order fuel m (s1 + 1) (s2 + 1) xs ys hx.2 hy.2)

schar-injective : (a b : ℕ) → a < 256 → b < 256 → schar a -ℤ schar b ≡ pos 0 → a ≡ b
unfolding schar ◌-ℤ◌
schar-injective a b ha hb e = ground arith

order-eq-zero :
    (m : Mem) (s1 s2 : ℕ) (xs ys : List ℕ)
    → IsString m s1 xs
    → IsString m s2 ys
    → IsBytes xs
    → IsBytes ys
    → order xs ys ≡ pos 0
    → xs ≡ ys
unfolding order
order-eq-zero m s1 s2 [] [] hx hy bx by e = refl
order-eq-zero m s1 s2 [] (y ∷ ys) hx hy bx by e = ground (arith, schar-injective 0 y)
order-eq-zero m s1 s2 (x ∷ xs) [] hx hy bx by e = ground (arith, schar-injective x 0)
order-eq-zero m s1 s2 (x ∷ xs) (y ∷ ys) hx hy bx by e =
    ground (arith, schar-injective x y, order-eq-zero m (s1 + 1) (s2 + 1) xs ys hx.2 hy.2 bx.1 by.1)

order_self : (xs : List ℕ) → order xs xs ≡ pos 0
unfolding order
order_self [] = refl
order_self (x ∷ xs) = ground (arith, order_self xs)

-- `strcmp` of two strings of bytes, with fuel for the first, returns 0 exactly when the strings are
-- equal.
pub strcmp-eq-zero_iff :
    (fuel : ℕ) (m : Mem) (s1 s2 : ℕ) (xs ys : List ℕ)
    → IsString m s1 xs
    → IsString m s2 ys
    → IsBytes xs
    → IsBytes ys
    → length xs < fuel
    → (strcmp fuel m s1 s2 ≡ some (pos 0)) ↔ (xs ≡ ys)
strcmp-eq-zero_iff fuel m s1 s2 xs ys hx hy bx by lt =
    let run = strcmp-order fuel m s1 s2 xs ys hx hy lt in
    (
      λ e. order-eq-zero m s1 s2 xs ys hx hy bx by (cc (sym run ∙ e)),
      λ e. run ∙ ap some (ap (order xs) (sym e) ∙ order_self xs),
    )

-- `strncmp` of two strings is the order of their first `n` bytes.
pub strncmp-order :
    (m : Mem) (s1 s2 n : ℕ) (xs ys : List ℕ)
    → IsString m s1 xs
    → IsString m s2 ys
    → strncmp m s1 s2 n ≡ order (take n xs) (take n ys)
unfolding strncmp order ◌-ℤ◌
strncmp-order m s1 s2 zero xs ys hx hy = refl
strncmp-order m s1 s2 (suc n) [] [] hx hy = ground arith
strncmp-order m s1 s2 (suc n) [] (y ∷ ys) hx hy = ground arith
strncmp-order m s1 s2 (suc n) (x ∷ xs) [] hx hy = ground arith
strncmp-order m s1 s2 (suc n) (x ∷ xs) (y ∷ ys) hx hy =
    ground (arith, strncmp-order m (s1 + 1) (s2 + 1) n xs ys hx.2 hy.2)

-- the first place, of `n`, where the bytes from `s1` on and those from `s2` on differ
pub record DiffersAt (m : Mem) (s1 s2 n i : ℕ) : Type 0 where
  pub within : i < n
  pub before : slice m s1 i ≡ slice m s2 i
  pub here : m (s1 + i) ≢ m (s2 + i)

DiffersAt-shift :
    (m : Mem) (s1 s2 n i : ℕ)
    → m s1 ≡ m s2
    → DiffersAt m (s1 + 1) (s2 + 1) n i
    → DiffersAt m s1 s2 (suc n) (suc i)
unfolding slice
DiffersAt-shift m s1 s2 n i e d = record {
  within = omega (arith, d.within);
  before = ap₂ ◌∷◌ e d.before;
  here = ground (arith, d.here);
}

-- `memcmp` returns 0 and the two ranges agree, or it returns the difference of the unsigned bytes
-- at the first place where they differ.
pub memcmp_lem :
    (m : Mem) (s1 s2 n : ℕ)
    → ((memcmp m s1 s2 n ≡ pos 0) × (slice m s1 n ≡ slice m s2 n))
      ⊎ ((i : ℕ) × DiffersAt m s1 s2 n i
          × (memcmp m s1 s2 n ≡ pos (m (s1 + i)) -ℤ pos (m (s2 + i))))
unfolding memcmp slice
memcmp_lem m s1 s2 zero = inl (refl, refl)
memcmp_lem m s1 s2 (suc n) = elim (Bool-cases (m s1 == m s2)) [
  | inl same ↦ rw same (elim (memcmp_lem m (s1 + 1) (s2 + 1) n) [
    | inl (e, all) ↦ inl (e, ap₂ ◌∷◌ ((==_iff _ _).0 same) all)
    | inr (i, d, e) ↦ inr (suc i, DiffersAt-shift m s1 s2 n i ((==_iff _ _).0 same) d, ground arith)
  ])
  | inr other ↦
      rw other
        (inr (0, record { within = omega arith; before = refl; here = ground arith }, ground arith))
]
