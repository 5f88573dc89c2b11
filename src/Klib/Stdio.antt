-- ===== src/Klib/Stdio.antt =====
-- abstract-machine/klib/src/stdio.c: `vsprintf` and the functions over it. The format is the list
-- of its bytes up to the NUL, and the result the bytes written before the final NUL. What C leaves
-- undefined (a missing or wrong argument, an overflow of the `int` width, of `tmp` or of `printf`'s
-- buffer) is a fault. The outer loop runs on fuel.
pub mod Digits
pub mod Pieces
pub mod Padding
use nju_os_workbench.Base.{
  ℕ, zero, suc, ◌+◌, ◌-◌, ◌*◌, ◌/◌, ◌%◌, ◌^◌, Bool, true, false, ◌&&◌, Option, none, some, List, [],
  ◌∷◌, ◌++◌, ◌==◌, leb, ltb, if◌then◌else◌, length, replicate,
}
use nju_os_workbench.Base.Int.{ℤ, pos, negsuc, ltb_ℤ}

-- an argument of the variable part
pub data Arg : Type 0 where
  int : ℤ → Arg
  str : List ℕ → Arg

pub data Run : Type 0 where
  done : List ℕ → Run
  fault : Run
  out_of_fuel : Run

-- `do { *p++ = '0' + num % 10; num /= 10; } while (num > 0);` for a number that is not negative.
-- `tmp` is the list of its bytes with the newest first, which is the order they are read back in.
unfoldable pub push_digits : (fuel n : ℕ) → List ℕ → List ℕ
push_digits zero n tmp = tmp
push_digits (suc fuel) n tmp =
    let rest = push_digits fuel (n / 10) ((48 + n % 10) ∷ tmp) in
    if n / 10 == 0 then (48 + n % 10) ∷ tmp else rest

-- The same for an `int`: of a negative number `num % 10` is negative and the loop ends at once.
unfoldable pub push_int : ℤ → List ℕ → List ℕ
unfolding push_digits
push_int (pos n) tmp = push_digits (suc n) n tmp
push_int (negsuc n) tmp = (48 - suc n % 10) ∷ tmp

-- `%d`: what `while (p > tmp) *out++ = *--p;` writes
unfoldable pub format_int : ℤ → List ℕ
unfolding push_int
format_int num = push_int num []

-- `%0<width>d`: the zeros go in first and so come out last
unfoldable pub format_padded : (width : ℕ) → ℤ → Option (List ℕ)
unfolding push_int
format_padded width num =
    let tmp = push_int num (if ltb_ℤ num (pos 10) then replicate (width - 1) 48 else []) in
    if leb (length tmp) 20 then some tmp else none

-- `while (*fmt >= '0' && *fmt <= '9') ...`: the width, and the format behind it
unfoldable pub read_width : List ℕ → ℕ → Option (ℕ × List ℕ)
read_width [] width = some (width, [])
read_width (c ∷ fmt) width =
    let rest = read_width fmt (width * 10 + (c - 48)) in
    if leb 48 c && leb c 57
    then (if ltb (width * 10 + (c - 48)) (2 ^ 31) then rest else none)
    else some (width, c ∷ fmt)

-- What one directive writes, with the format and the arguments that are left.
abbrev pub Directive : Type 0
Directive = Option (List ℕ × List ℕ × List Arg)

unfoldable pub decimal_directive : List ℕ → List Arg → Directive
unfolding format_int
decimal_directive fmt [] = none
decimal_directive fmt (int num ∷ args) = some (format_int num, fmt, args)
decimal_directive fmt (str s ∷ args) = none

unfoldable pub string_directive : List ℕ → List Arg → Directive
string_directive fmt [] = none
string_directive fmt (int num ∷ args) = none
string_directive fmt (str s ∷ args) = some (s, fmt, args)

unfoldable pub padded_directive : ℕ → List ℕ → List Arg → Directive
unfolding format_padded
padded_directive width fmt [] = none
padded_directive width fmt (int num ∷ args) = elim (format_padded width num) [
  | none ↦ none
  | some out ↦ some (out, fmt, args)
]
padded_directive width fmt (str s ∷ args) = none

-- after the width: only `d` is a directive, anything else is left in the format
unfoldable pub after_width : ℕ → List ℕ → List Arg → Directive
unfolding padded_directive
after_width width [] args = some ([], [], args)
after_width width (c ∷ fmt) args =
    if c == b'd' then padded_directive width fmt args else some ([], c ∷ fmt, args)

-- `%0`, up to the end of the width
unfoldable pub zero_directive : List ℕ → List Arg → Directive
unfolding after_width read_width
zero_directive fmt args = elim (read_width fmt 0) [
  | none ↦ none
  | some (width, rest) ↦ after_width width rest args
]

-- The `switch` on the byte behind a `%`. An unknown byte is left in the format.
unfoldable pub directive : List ℕ → List Arg → Directive
unfolding decimal_directive string_directive zero_directive
directive [] args = some ([], [], args)
directive (c ∷ fmt) args =
    if c == b'd'
    then decimal_directive fmt args
    else if c == b's'
    then string_directive fmt args
    else if c == b'0'
    then zero_directive fmt args
    else some ([], c ∷ fmt, args)

abbrev pub prepend : List ℕ → Run → Run
prepend out (done rest) = done (out ++ rest)
prepend out fault = fault
prepend out out_of_fuel = out_of_fuel

unfoldable pub print_loop : ℕ → List ℕ → List Arg → Run
unfolding directive
print_loop zero fmt args = out_of_fuel
print_loop (suc fuel) [] args = done []
print_loop (suc fuel) (c ∷ fmt) args = elim (c == b'%') [
  | true ↦ elim (directive fmt args) [
    | none ↦ fault
    | some (out, rest, args') ↦ prepend out (print_loop fuel rest args')
  ]
  | false ↦ prepend (c ∷ []) (print_loop fuel fmt args)
]

-- every round takes a byte off the format
unfoldable pub vsprintf : List ℕ → List Arg → Run
unfolding print_loop
vsprintf fmt args = print_loop (length fmt + 1) fmt args

-- `printf` formats into a buffer of 1024 bytes and puts it on the console.
unfoldable pub printf : List ℕ → List Arg → Run
unfolding vsprintf
printf fmt args = elim (vsprintf fmt args) [
  | done out ↦ if ltb (length out) 1024 then done out else fault
  | fault ↦ fault
  | out_of_fuel ↦ out_of_fuel
]
