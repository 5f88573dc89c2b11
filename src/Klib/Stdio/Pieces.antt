-- ===== src/Klib/Stdio/Pieces.antt =====
-- What `vsprintf` of abstract-machine/klib/src/stdio.c writes for whole formats.
use nju_os_workbench.Base.{
  inl, inr, Bool-cases, ◌≢◌, ◌==◌, ◌*◌, Option-cases, ℕ, zero, suc, ◌+◌, ◌-◌, ◌^◌, ◌≤◌, ◌<◌, ◌≡◌,
  refl, some, List, [], ◌∷◌, ◌++◌, arith, length,
}
use nju_os_workbench.Base.Int.{pos}
use nju_os_workbench.Klib.Stdio.Digits.{IsDecimal, format_int-IsDecimal}
use nju_os_workbench.Klib.Stdio.{
  Arg, int, str, done, out_of_fuel, zero_directive, format_int, read_width, decimal_directive,
  string_directive, padded_directive, after_width, directive, print_loop, vsprintf,
}

-- a part of a format that stands for itself: a byte, a `%d` with a number that is not
-- negative, or a `%s`
pub data Piece : Type 0 where
  byte : ℕ → Piece
  number : ℕ → Piece
  text : List ℕ → Piece

-- the format, and an argument for each directive
unfoldable pub format_of : List Piece → List ℕ
format_of [] = []
format_of (byte c ∷ ps) = c ∷ format_of ps
format_of (number n ∷ ps) = b'%' ∷ b'd' ∷ format_of ps
format_of (text s ∷ ps) = b'%' ∷ b's' ∷ format_of ps

unfoldable pub args_of : List Piece → List Arg
args_of [] = []
args_of (byte c ∷ ps) = args_of ps
args_of (number n ∷ ps) = int (pos n) ∷ args_of ps
args_of (text s ∷ ps) = str s ∷ args_of ps

-- `out` is the bytes, the decimal notations of the numbers and the strings, one behind the other.
unfoldable pub IsRendering : List Piece → List ℕ → Type 0
IsRendering [] out = out ≡ []
IsRendering (byte c ∷ ps) out = (rest : List ℕ) × (out ≡ c ∷ rest) × IsRendering ps rest
IsRendering (number n ∷ ps) out =
    (cs : List ℕ) × (rest : List ℕ) × (out ≡ cs ++ rest) × IsDecimal n cs × IsRendering ps rest
IsRendering (text s ∷ ps) out = (rest : List ℕ) × (out ≡ s ++ rest) × IsRendering ps rest

-- no byte of the string ends it
abbrev pub NoNul : List ℕ → Type 0
NoNul [] = Unit
NoNul (c ∷ cs) = (c ≢ 0) × NoNul cs

-- The bytes stand for themselves and do not end the format, the numbers fit into an `int`, and the
-- strings are C strings without their NUL.
abbrev pub IsPlain : List Piece → Type 0
IsPlain [] = Unit
IsPlain (byte c ∷ ps) = (c ≢ b'%') × (c ≢ 0) × IsPlain ps
IsPlain (number n ∷ ps) = (n < 2 ^ 31) × IsPlain ps
IsPlain (text s ∷ ps) = NoNul s × IsPlain ps

print_loop-IsRendering :
    (fuel : ℕ) (ps : List Piece)
    → IsPlain ps
    → length (format_of ps) < fuel
    → (out : List ℕ) × (print_loop fuel (format_of ps) (args_of ps) ≡ done out) × IsRendering ps out
unfolding print_loop directive decimal_directive string_directive format_of args_of IsRendering
print_loop-IsRendering zero ps ok lt = absurd (omega arith)
print_loop-IsRendering (suc fuel) [] ok lt = ([], refl, refl)
print_loop-IsRendering (suc fuel) (byte c ∷ ps) (plain, there, ok) lt =
    let (rest, e, h) = print_loop-IsRendering fuel ps ok (omega arith) in
    (c ∷ rest, ground (arith, e), (rest, refl, h))
print_loop-IsRendering (suc fuel) (number n ∷ ps) (small, ok) lt =
    let (rest, e, h) = print_loop-IsRendering fuel ps ok (omega arith) in
    (
      format_int (pos n) ++ rest,
      rw e refl,
      (format_int (pos n), rest, refl, format_int-IsDecimal n, h),
    )
print_loop-IsRendering (suc fuel) (text s ∷ ps) (nul, ok) lt =
    let (rest, e, h) = print_loop-IsRendering fuel ps ok (omega arith) in
    (s ++ rest, rw e refl, (rest, refl, h))

-- A format of bytes other than `%` and NUL, of `%d` and of `%s`, given an `int` that is not negative
-- or a string for each directive, is written without a fault, in the order of its parts: a byte as
-- it is, a number in decimal notation, without a zero in front, and a string as it is.
pub vsprintf-IsRendering :
    (ps : List Piece)
    → IsPlain ps
    → (out : List ℕ) × (vsprintf (format_of ps) (args_of ps) ≡ done out) × IsRendering ps out
unfolding vsprintf
vsprintf-IsRendering ps ok = print_loop-IsRendering (length (format_of ps) + 1) ps ok (omega arith)

-- Each directive leaves no more of the format than it was given.
read_width-length :
    (fmt : List ℕ) (w w' : ℕ) (rest : List ℕ)
    → read_width fmt w ≡ some (w', rest)
    → length rest ≤ length fmt
unfolding read_width
read_width-length [] w w' rest e = ground arith
read_width-length (c ∷ fmt) w w' rest e =
    ground (arith, read_width-length fmt (w * 10 + (c - 48)) w' rest)

after_width-length :
    (w : ℕ) (fmt : List ℕ) (args : List Arg) (out rest : List ℕ) (args' : List Arg)
    → after_width w fmt args ≡ some (out, rest, args')
    → length rest ≤ length fmt
unfolding after_width padded_directive
after_width-length w [] args out rest args' e = ground arith
after_width-length w (c ∷ fmt) [] out rest args' e = ground arith
after_width-length w (c ∷ fmt) (int num ∷ args) out rest args' e = ground arith
after_width-length w (c ∷ fmt) (str s ∷ args) out rest args' e = ground arith

zero_directive-length :
    (fmt : List ℕ) (args : List Arg) (out rest : List ℕ) (args' : List Arg)
    → zero_directive fmt args ≡ some (out, rest, args')
    → length rest ≤ length fmt
unfolding zero_directive
zero_directive-length fmt args out rest args' e = elim (Option-cases (read_width fmt 0)) [
  | inl stop ↦ cc (rw (stop, zero_directive) at e)
  | inr ((w, r), found) ↦
      let shorter = read_width-length fmt 0 w r found in
      let rest-le = after_width-length w r args out rest args' (rw (found, zero_directive) at e) in
      omega (arith, shorter, rest-le)
]

directive-length :
    (fmt : List ℕ) (args : List Arg) (out rest : List ℕ) (args' : List Arg)
    → directive fmt args ≡ some (out, rest, args')
    → length rest ≤ length fmt
unfolding directive decimal_directive string_directive
directive-length [] args out rest args' e = ground arith
directive-length (c ∷ fmt) [] out rest args' e =
    ground (arith, zero_directive-length fmt [] out rest args')
directive-length (c ∷ fmt) (int num ∷ args) out rest args' e =
    ground (arith, zero_directive-length fmt (int num ∷ args) out rest args')
directive-length (c ∷ fmt) (str s ∷ args) out rest args' e =
    ground (arith, zero_directive-length fmt (str s ∷ args) out rest args')

print_loop-ends :
    (fuel : ℕ) (fmt : List ℕ) (args : List Arg)
    → length fmt < fuel
    → print_loop fuel fmt args ≢ out_of_fuel
unfolding print_loop
print_loop-ends zero fmt args lt = absurd (omega arith)
print_loop-ends (suc fuel) [] args lt = λ e. cc e
print_loop-ends (suc fuel) (c ∷ fmt) args lt = elim (Bool-cases (c == b'%')) [
  | inl percent ↦
      rw (percent, print_loop)
        (elim (Option-cases (directive fmt args)) [
          | inl stop ↦ rw stop (λ e. cc e)
          | inr ((out, rest, args'), found) ↦
              let shorter = directive-length fmt args out rest args' found in
              rw found (ground (arith, print_loop-ends fuel rest args', shorter))
        ])
  | inr other ↦ rw (other, print_loop) (ground (arith, print_loop-ends fuel fmt args))
]

-- On every format and argument list the fuel of `vsprintf` suffices: it writes its output or meets
-- what C leaves undefined.
pub vsprintf-ends : (fmt : List ℕ) (args : List Arg) → vsprintf fmt args ≢ out_of_fuel
unfolding vsprintf
vsprintf-ends fmt args = print_loop-ends (length fmt + 1) fmt args (omega arith)
