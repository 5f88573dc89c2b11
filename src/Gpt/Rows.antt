-- ===== src/Gpt/Rows.antt =====
-- What `calc` of M3-gpt/gpt.c writes.
use nju_os_workbench.Base.{
  ℕ, zero, suc, ◌+◌, ◌*◌, ◌≤◌, ◌<◌, ◌≡◌, refl, ap, ◌∙◌, ◌⊎◌, inl, inr, false, Option, none, some,
  arith, ◌==◌, Bool-cases,
}
use nju_os_workbench.Gpt.Pool.{Job}
use nju_os_workbench.Gpt.Calc.{FloatOps, Floats, bias_at}
unfoldable use nju_os_workbench.Gpt.Calc.{put_float, dot_loop, cell, calc_loop, calc}

-- `q` is none of the `n` indices from `p` on
abbrev pub Beyond : (p n q : ℕ) → Type 0
Beyond p n q = (q < p) ⊎ (p + n ≤ q)

-- The job reads nothing of the row that it writes.
pub record IsApart (j : Job) : Type 0 where
  pub inputs : (i : ℕ) → i < j.channels → Beyond j.out_bt j.out_channels (j.inp_bt + i)
  pub weights :
      (o i : ℕ)
      → o < j.out_channels
      → i < j.channels
      → Beyond j.out_bt j.out_channels (j.weight + o * j.channels + i)
  pub biases :
      (b o : ℕ) → j.bias ≡ some b → o < j.out_channels → Beyond j.out_bt j.out_channels (b + o)

module _ {F : Type 0} (ops : FloatOps F) where
  dot_loop_same :
      (rounds i inp_bt wrow : ℕ) (val : F) (m m' : Floats F)
      → ((k : ℕ)
          → k < i + rounds
          → (m (inp_bt + k) ≡ m' (inp_bt + k)) × (m (wrow + k) ≡ m' (wrow + k)))
      → dot_loop ops rounds i inp_bt wrow val m ≡ dot_loop ops rounds i inp_bt wrow val m'
  unfolding dot_loop
  dot_loop_same zero i inp_bt wrow val m m' same = refl
  dot_loop_same (suc rounds) i inp_bt wrow val m m' same =
      let (a, b) = same i (omega arith) in
      rw (a, b) (dot_loop_same rounds (i + 1) inp_bt wrow _ m m' (λ k lt. same k (omega arith)))

  -- Two memories that agree on what a job reads give the same cells.
  pub cell_same :
      (j : Job) (o : ℕ) (m m' : Floats F)
      → ((i : ℕ) → i < j.channels → m (j.inp_bt + i) ≡ m' (j.inp_bt + i))
      → ((i : ℕ)
          → i < j.channels
          → m (j.weight + o * j.channels + i) ≡ m' (j.weight + o * j.channels + i))
      → ((b : ℕ) → j.bias ≡ some b → m (b + o) ≡ m' (b + o))
      → cell ops j o m ≡ cell ops j o m'
  unfolding cell
  cell_same j o m m' inputs weights biases =
      ap (λ (v : F). dot_loop ops j.channels 0 j.inp_bt (j.weight + o * j.channels) v m)
        (same_bias j.bias biases)
      ∙ dot_loop_same j.channels 0 j.inp_bt (j.weight + o * j.channels) (bias_at ops j.bias o m') m
          m' (λ k lt. (inputs k (omega arith), weights k (omega arith)))
    where
      same_bias :
          (bias : Option ℕ)
          → ((b : ℕ) → bias ≡ some b → m (b + o) ≡ m' (b + o))
          → bias_at ops bias o m ≡ bias_at ops bias o m'
      same_bias none h = refl
      same_bias (some b) h = h b refl

  calc_loop_lem :
      (rounds o : ℕ) (j : Job) (m start : Floats F)
      → o + rounds ≡ j.out_channels
      → IsApart j
      → ((q : ℕ) → Beyond j.out_bt j.out_channels q → m q ≡ start q)
      → ((k : ℕ) → k < o → m (j.out_bt + k) ≡ cell ops j k start)
      → ((q : ℕ) → Beyond j.out_bt j.out_channels q → calc_loop ops rounds o j m q ≡ start q)
        × ((k : ℕ)
            → k < o + rounds
            → calc_loop ops rounds o j m (j.out_bt + k) ≡ cell ops j k start)
  unfolding calc_loop put_float
  calc_loop_lem zero o j m start n apart same done = (same, λ k lt. done k (omega arith))
  calc_loop_lem (suc rounds) o j m start n apart same done =
      let now : cell ops j o m ≡ cell ops j o start =
        cell_same j o m start (λ i lt. same _ (apart.inputs i lt))
          (λ i lt. same _ (apart.weights o i (omega arith) lt))
          (λ b e. same _ (apart.biases b o e (omega arith))) in
      let (others, row) =
        calc_loop_lem rounds (o + 1) j (put_float m (j.out_bt + o) (cell ops j o m)) start
          (omega arith) apart
          (λ q beyond.
            let other : (j.out_bt + o == q) ≡ false = elim beyond [
              | inl h ↦ ground arith
              | inr h ↦ ground arith
            ] in
            rw other (same q beyond))
          (λ k lt. elim (Bool-cases (j.out_bt + o == j.out_bt + k)) [
            | inl here ↦ let e : k ≡ o = ground arith in rw here (rw e now)
            | inr there ↦ rw there (done k (ground arith))
          ]) in
      (others, λ k lt. row k (omega arith))

  -- A job fills its row, each cell from the memory before, and changes nothing else.
  pub calc_lem :
      (j : Job) (m : Floats F)
      → IsApart j
      → ((q : ℕ) → Beyond j.out_bt j.out_channels q → calc ops j m q ≡ m q)
        × ((k : ℕ) → k < j.out_channels → calc ops j m (j.out_bt + k) ≡ cell ops j k m)
  unfolding calc
  calc_lem j m apart =
      let (others, row) =
        calc_loop_lem j.out_channels 0 j m m (omega arith) apart (λ q beyond. refl)
          (λ k lt. elim lt [ ]) in
      (others, λ k lt. row k (omega arith))
