-- ===== src/Klib/Stdlib/Rand.antt =====
-- The numbers that `rand` of abstract-machine/klib/src/stdlib.c returns.
use nju_os_workbench.Base.{
  ℕ, zero, suc, ◌*◌, ◌+◌, ◌%◌, ◌^◌, ◌<◌, ◌≡◌, refl, List, [], ◌∷◌, ap₂, arith,
}
use nju_os_workbench.Klib.Stdlib.{rand, srand}

-- `n` calls of `rand`, from the state `next`
unfoldable pub draws : (bits n next : ℕ) → List ℕ
draws bits zero next = []
draws bits (suc n) next = let (r, next') = rand bits next in r ∷ draws bits n next'

draws-low_bits : (n next : ℕ) → draws 32 n (next % 2 ^ 32) ≡ draws 64 n next
unfolding draws rand
draws-low_bits zero next = refl
draws-low_bits (suc n) next =
    let e : (next % 2 ^ 32 * 1103515245 + 12345) % 2 ^ 32
        ≡ (next * 1103515245 + 12345) % 2 ^ 64 % 2 ^ 32 =
      omega arith in
    rw e (ap₂ ◌∷◌ (omega arith) (draws-low_bits n ((next * 1103515245 + 12345) % 2 ^ 64)))

-- From the same seed, a target whose `unsigned long` has 32 bits and one where it has 64 draw the
-- same numbers.
pub draws-width : (n seed : ℕ) → seed < 2 ^ 32 → draws 32 n (srand seed) ≡ draws 64 n (srand seed)
unfolding srand
draws-width n seed lt =
    let e : seed % 2 ^ 32 ≡ seed = omega arith in rw e at (draws-low_bits n seed)
