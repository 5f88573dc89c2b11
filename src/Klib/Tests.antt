-- ===== src/Klib/Tests.antt =====
-- The C library of abstract-machine/klib/src on small memories.
use nju_os_workbench.Base.{
  ℕ, ◌+◌, ◌-◌, ◌*◌, ◌/◌, ◌%◌, ◌≤◌, ◌≡◌, ◌≢◌, refl, ◌↔◌, inr, true, ◌&&◌, some, List, [], ◌∷◌, ◌++◌,
  arith, ◌==◌, leb, ltb, if◌then◌else◌, length, ◌<◌,
}
use nju_os_workbench.Base.Int.{pos}
use nju_os_workbench.Base.Memory.{Mem, IsString}
use nju_os_workbench.Klib.Strings.{strcat, strcmp}
use nju_os_workbench.Klib.Strings.Copy.{strcat-append}
use nju_os_workbench.Klib.Strings.Compare.{strcmp-eq-zero_iff}
use nju_os_workbench.Klib.Stdlib.{
  Area, Allocator, fresh_allocator, top, malloc, memmove, atoi, roundup,
}
use nju_os_workbench.Klib.Stdlib.Malloc.{IsReady, malloc-IsReady, memmove_lem}
use nju_os_workbench.Klib.Stdio.{done, out_of_fuel, format_int, vsprintf}
use nju_os_workbench.Klib.Stdio.Digits.{atoi-format_int}
use nju_os_workbench.Klib.Stdio.Pieces.{
  Piece, byte, number, text, format_of, args_of, IsRendering, vsprintf-IsRendering, vsprintf-ends,
}

-- "ab" at 100, "ac" at 200, and the digits "47" at 300; 7 elsewhere
abbrev memory : Mem
memory q =
    if q == 100
    then 97
    else if q == 101
    then 98
    else if q == 102
    then 0
    else if q == 200
    then 97
    else if q == 201
    then 99
    else if q == 202
    then 0
    else if q == 300
    then 52
    else if q == 301
    then 55
    else if q == 302
    then 0
    else 7

abbrev ab : List ℕ
ab = 97 ∷ 98 ∷ []

abbrev ac : List ℕ
ac = 97 ∷ 99 ∷ []

ab-IsString : IsString memory 100 ab
ab-IsString = (refl, (λ e. omega (arith, e)), (refl, (λ e. omega (arith, e)), refl))

ac-IsString : IsString memory 200 ac
ac-IsString = (refl, (λ e. omega (arith, e)), (refl, (λ e. omega (arith, e)), refl))

strcat-append_example :
    (g : Mem) × (strcat 3 memory 100 200 ≡ some g)
    × IsString g 100 (ab ++ ac)
    × ((q : ℕ)
        → g q ≡ (
            if leb (100 + length ab) q && leb q (100 + length ab + length ac)
            then memory (200 + (q - (100 + length ab)))
            else memory q))
strcat-append_example =
    strcat-append 3 memory 100 200 ab ac ab-IsString ac-IsString (omega arith) (omega arith)
      (inr (omega arith))

strcmp-eq-zero_iff_example : (strcmp 3 memory 100 200 ≡ some (pos 0)) ↔ (ab ≡ ac)
strcmp-eq-zero_iff_example =
    strcmp-eq-zero_iff 3 memory 100 200 ab ac ab-IsString ac-IsString
      (omega arith, (omega arith, tt)) (omega arith, (omega arith, tt)) (omega arith)

-- a heap of 24 bytes, not aligned at its start
abbrev area : Area
area = record { start = 1001; stop = 1040 }

area-IsReady : IsReady area fresh_allocator
unfolding roundup
area-IsReady = record {
  low = omega arith;
  starts = omega arith;
  room = omega arith;
  aligned = omega arith;
  below = omega arith;
}

malloc-IsReady_example :
    (1008 % 8 ≡ 0)
    × (area.start ≤ 1008)
    × (1008 ≡ top area fresh_allocator)
    × (1008 + 5 ≤ top area (record { inited = true; curr = 1016 }))
    × (top area (record { inited = true; curr = 1016 }) < 1008 + 5 + 8)
    × (top area (record { inited = true; curr = 1016 }) ≤ area.stop)
    × IsReady area (record { inited = true; curr = 1016 })
unfolding malloc
malloc-IsReady_example = malloc-IsReady area fresh_allocator 5 area-IsReady (omega arith) refl

memmove_lem_example :
    (g : Mem) × (a' : Allocator) × (memmove area fresh_allocator memory 101 100 3 ≡ some (g, a'))
    × (top area a' ≡ top area fresh_allocator + (3 + 7) / 8 * 8)
    × ((q : ℕ)
        → g q ≡ (
            if leb 101 q && ltb q (101 + 3)
            then memory (100 + (q - 101))
            else if leb (top area fresh_allocator) q && ltb q (top area fresh_allocator + 3)
            then memory (100 + (q - top area fresh_allocator))
            else memory q))
unfolding roundup
memmove_lem_example =
    memmove_lem area fresh_allocator memory 101 100 3 area-IsReady (omega arith) (omega arith)
      (omega arith) (omega arith)

atoi-format_int_example : atoi 4 memory 300 ≡ some 47
unfolding format_int
atoi-format_int_example =
    atoi-format_int 4 memory 300 47 (omega arith)
      (refl, (λ e. omega (arith, e)), (refl, (λ e. omega (arith, e)), refl)) (omega arith)

-- "x%d, %s"
abbrev pieces : List Piece
pieces = byte 120 ∷ number 31 ∷ byte 44 ∷ byte 32 ∷ text ab ∷ []

vsprintf-IsRendering_example :
    (out : List ℕ) × (vsprintf (format_of pieces) (args_of pieces) ≡ done out)
    × IsRendering pieces out
vsprintf-IsRendering_example = vsprintf-IsRendering pieces (
  (λ e. omega (arith, e)),
  (λ e. omega (arith, e)),
  (
    omega arith,
    (
      (λ e. omega (arith, e)),
      (λ e. omega (arith, e)),
      (
        (λ e. omega (arith, e)),
        (λ e. omega (arith, e)),
        (((λ e. omega (arith, e)), ((λ e. omega (arith, e)), tt)), tt),
      ),
    ),
  ),
)

vsprintf-ends_example : vsprintf (b'%' ∷ b'x' ∷ b'%' ∷ []) [] ≢ out_of_fuel
vsprintf-ends_example = vsprintf-ends (b'%' ∷ b'x' ∷ b'%' ∷ []) []
