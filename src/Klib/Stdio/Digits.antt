-- ===== src/Klib/Stdio/Digits.antt =====
-- The decimal digits that `vsprintf` of abstract-machine/klib/src/stdio.c writes, and `atoi` of
-- stdlib.c, which reads them back.
use nju_os_workbench.Base.{
  ℕ, zero, suc, ◌+◌, ◌-◌, ◌*◌, ◌/◌, ◌%◌, ◌^◌, ◌≤◌, ◌<◌, ◌≡◌, refl, ◌∙◌, ap, some, List, [], ◌∷◌,
  arith, Bool-cases, inl, inr, ◌==◌, length,
}
use nju_os_workbench.Base.Int.{pos, negsuc}
use nju_os_workbench.Base.Memory.{Mem, IsString}
use nju_os_workbench.Klib.Stdlib.{skip_spaces, read_digits, atoi}
use nju_os_workbench.Klib.Stdio.{push_digits, format_int}

-- every byte is a decimal digit
abbrev pub AllDigits : List ℕ → Type 0
AllDigits [] = Unit
AllDigits (c ∷ cs) = (48 ≤ c) × (c ≤ 57) × AllDigits cs

-- the number that the digits stand for, behind those of `x`
unfoldable pub value : ℕ → List ℕ → ℕ
value x [] = x
value x (c ∷ cs) = value (x * 10 + (c - 48)) cs

push_digits-value :
    (fuel n : ℕ) (tmp : List ℕ) → n < fuel → value 0 (push_digits fuel n tmp) ≡ value n tmp
unfolding push_digits value
push_digits-value zero n tmp lt = absurd (omega arith)
push_digits-value (suc fuel) n tmp lt = elim (Bool-cases (n / 10 == 0)) [
  | inl last ↦ rw last (ap (λ (k : ℕ). value k tmp) (ground arith))
  | inr more ↦ rw more (
      push_digits-value fuel (n / 10) ((48 + n % 10) ∷ tmp) (ground arith)
      ∙ ap (λ (k : ℕ). value k tmp) (omega arith))
]

push_digits-AllDigits :
    (fuel n : ℕ) (tmp : List ℕ) → AllDigits tmp → AllDigits (push_digits fuel n tmp)
unfolding push_digits
push_digits-AllDigits zero n tmp h = h
push_digits-AllDigits (suc fuel) n tmp h = elim (Bool-cases (n / 10 == 0)) [
  | inl last ↦ rw last (omega arith, omega arith, h)
  | inr more ↦
      rw more
        (push_digits-AllDigits fuel (n / 10) ((48 + n % 10) ∷ tmp) (omega arith, omega arith, h))
]

-- `%d` of a number that is not negative writes decimal digits only, and they stand for the number.
pub format_int-value : (n : ℕ) → AllDigits (format_int (pos n)) × (value 0 (format_int (pos n)) ≡ n)
unfolding format_int value
format_int-value n =
    (push_digits-AllDigits (suc n) n [] tt, push_digits-value (suc n) n [] (omega arith))

-- `cs` is how decimal notation writes `n`: digits that stand for `n`, without a zero in front.
abbrev pub IsCanonical : List ℕ → Type 0
IsCanonical [] = ⊥
IsCanonical (c ∷ []) = Unit
IsCanonical (c ∷ d ∷ cs) = 48 < c

pub record IsDecimal (n : ℕ) (cs : List ℕ) : Type 0 where
  pub digits : AllDigits cs
  pub stands : value 0 cs ≡ n
  pub canonical : IsCanonical cs

abbrev StartsPositive : List ℕ → Type 0
StartsPositive [] = ⊥
StartsPositive (c ∷ cs) = 48 < c

push_digits-StartsPositive :
    (fuel n : ℕ) (tmp : List ℕ) → n < fuel → 0 < n → StartsPositive (push_digits fuel n tmp)
unfolding push_digits
push_digits-StartsPositive zero n tmp lt some_n = absurd (omega arith)
push_digits-StartsPositive (suc fuel) n tmp lt some_n = elim (Bool-cases (n / 10 == 0)) [
  | inl last ↦ rw last (let small : n / 10 ≡ 0 = ground arith in omega arith)
  | inr more ↦
      rw more (
        push_digits-StartsPositive fuel (n / 10) ((48 + n % 10) ∷ tmp) (ground arith)
          (ground arith))
]

StartsPositive-IsCanonical : (cs : List ℕ) → StartsPositive cs → IsCanonical cs
StartsPositive-IsCanonical [] h = h
StartsPositive-IsCanonical (c ∷ []) h = tt
StartsPositive-IsCanonical (c ∷ d ∷ cs) h = h

format_int-IsCanonical : (n : ℕ) → IsCanonical (format_int (pos n))
unfolding format_int push_digits
format_int-IsCanonical zero = tt
format_int-IsCanonical (suc n) =
    StartsPositive-IsCanonical (push_digits (suc (suc n)) (suc n) [])
      (push_digits-StartsPositive (suc (suc n)) (suc n) [] (omega arith) (omega arith))

-- `%d` of a number that is not negative writes its decimal notation.
pub format_int-IsDecimal : (n : ℕ) → IsDecimal n (format_int (pos n))
format_int-IsDecimal n = record {
  digits = (format_int-value n).0;
  stands = (format_int-value n).1;
  canonical = format_int-IsCanonical n;
}

-- `%d` of a negative number writes a single digit and no sign: the last one of its magnitude,
-- subtracted from '0'.
pub format_int-negative : (n : ℕ) → format_int (negsuc n) ≡ (48 - suc n % 10) ∷ []
unfolding format_int
format_int-negative n = refl

read_digits-value :
    (fuel : ℕ) (m : Mem) (p x : ℕ) (cs : List ℕ)
    → IsString m p cs
    → AllDigits cs
    → length cs < fuel
    → read_digits fuel m p (x % 2 ^ 32) ≡ some (value x cs % 2 ^ 32)
unfolding read_digits value
read_digits-value zero m p x cs h d lt = absurd (omega arith)
read_digits-value (suc fuel) m p x [] h d lt = ground arith
read_digits-value (suc fuel) m p x (c ∷ cs) h d lt =
    let e : (x % 2 ^ 32 * 10 + c - 48) % 2 ^ 32 ≡ (x * 10 + (c - 48)) % 2 ^ 32 = omega arith in
    ground (arith, e, read_digits-value fuel m (p + 1) (x * 10 + (c - 48)) cs h.2 d.2)

skip_spaces-AllDigits :
    (fuel : ℕ) (m : Mem) (p : ℕ) (cs : List ℕ)
    → IsString m p cs
    → AllDigits cs
    → skip_spaces (suc fuel) m p ≡ some p
unfolding skip_spaces
skip_spaces-AllDigits fuel m p [] h d = ground arith
skip_spaces-AllDigits fuel m p (c ∷ cs) h d = ground arith

-- `atoi` of a string of digits, with fuel for each byte and the terminator, is the number that they
-- stand for, modulo 2^32.
pub atoi-value :
    (fuel : ℕ) (m : Mem) (p : ℕ) (cs : List ℕ)
    → IsString m p cs
    → AllDigits cs
    → length cs < fuel
    → atoi fuel m p ≡ some (value 0 cs % 2 ^ 32)
unfolding atoi
atoi-value zero m p cs h d lt = absurd (omega arith)
atoi-value (suc fuel) m p cs h d lt =
    rw (skip_spaces-AllDigits fuel m p cs h d) (read_digits-value (suc fuel) m p 0 cs h d lt)

-- Where memory holds what `%d` wrote of an `int` that is not negative, `atoi` reads that number.
pub atoi-format_int :
    (fuel : ℕ) (m : Mem) (p n : ℕ)
    → n < 2 ^ 31
    → IsString m p (format_int (pos n))
    → length (format_int (pos n)) < fuel
    → atoi fuel m p ≡ some n
atoi-format_int fuel m p n small h lt =
    let (digits, e) = format_int-value n in
    atoi-value fuel m p (format_int (pos n)) h digits lt ∙ ap some (omega arith)
