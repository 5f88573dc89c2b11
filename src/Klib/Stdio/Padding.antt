-- ===== src/Klib/Stdio/Padding.antt =====
-- `%0<width>d` in `vsprintf` of abstract-machine/klib/src/stdio.c.
use nju_os_workbench.Base.{
  ℕ, zero, suc, ◌+◌, ◌-◌, ◌*◌, ◌/◌, ◌%◌, ◌^◌, ◌≤◌, ◌<◌, ◌≡◌, refl, some, List, [], ◌∷◌, arith,
  length, replicate, length-replicate, ◌∙◌, ap,
}
use native.Mathlib.Nat.{pow-suc}
use nju_os_workbench.Base.Int.{pos}
use nju_os_workbench.Klib.Stdio.Digits.{value}
use nju_os_workbench.Klib.Stdio.{push_digits, push_int, format_int, format_padded}

value-zeros : (k x : ℕ) → value x (replicate k 48) ≡ x * 10 ^ k
unfolding value
value-zeros zero x = omega arith
value-zeros (suc k) x =
    value-zeros k (x * 10 + (48 - 48)) ∙ omega (arith, ap (λ (t : ℕ). x * t) (pow-suc 10 k))

-- A `%0<width>d` of a digit, with a width from 1 to 20, writes the digit first and the zeros behind
-- it, so that the decimal number written is the digit times 10^(width - 1).
pub format_padded-digit :
    (width n : ℕ)
    → n < 10
    → width < 20
    → (out : List ℕ) × (format_padded (suc width) (pos n) ≡ some out)
      × (out ≡ (48 + n) ∷ replicate width 48)
      × (value 0 out ≡ n * 10 ^ width)
unfolding format_padded push_int push_digits value
format_padded-digit width n lt le = (
  (48 + n) ∷ replicate width 48,
  ground (arith, length-replicate {A = ℕ} width 48),
  refl,
  value-zeros width (0 + (48 + n - 48)) ∙ ap (λ (k : ℕ). k * 10 ^ width) (omega arith),
)

push_digits-length :
    (k fuel n : ℕ) (tmp : List ℕ)
    → n < 10 ^ suc k
    → length (push_digits fuel n tmp) ≤ suc k + length tmp
unfolding push_digits
push_digits-length k zero n tmp lt = omega arith
push_digits-length zero (suc fuel) n tmp lt = ground arith
push_digits-length (suc k) (suc fuel) n tmp lt =
    let less : n / 10 < 10 ^ suc k = omega (arith, pow-suc 10 (suc k)) in
    ground (arith, push_digits-length k fuel (n / 10) ((48 + n % 10) ∷ tmp))

-- A `%0<width>d` of an `int` from 10 on writes the number as `%d` does: it is never padded.
pub format_padded-unpadded :
    (width n : ℕ) → 10 ≤ n → n < 2 ^ 31 → format_padded width (pos n) ≡ some (format_int (pos n))
unfolding format_padded push_int format_int
format_padded-unpadded width n ge lt =
    ground (arith, push_digits-length 9 (suc n) n [] (omega arith))
