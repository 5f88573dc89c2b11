-- ===== src/Gpt/Product.antt =====
-- The matrix that `matmul_forward` of M3-gpt/gpt.c leaves behind, whatever the order of the threads.
use nju_os_workbench.Base.{
  zero, suc, ℕ, ◌+◌, ◌*◌, ◌≤◌, ◌<◌, ◌≡◌, ◌≢◌, refl, sym, ap, ◌∙◌, subst, inl, inr, true, some, List,
  [], ◌∷◌, arith,
}
use nju_os_workbench.Gpt.Calc.{bias_at, FloatOps, Floats, Product, calc}
unfoldable use nju_os_workbench.Gpt.Calc.{dot_loop, cell, matmul_jobs}
unfoldable use nju_os_workbench.Base.{dec_lt}
use nju_os_workbench.Gpt.Pool.{Job, System, returned}
use nju_os_workbench.Gpt.Rows.{Beyond, IsApart, calc_lem, cell_same}
use nju_os_workbench.Gpt.Jobs.{
  counts_ne, row, Job-discrete, batch_jobs-rows, is_row, is_row_sound, strange, weigh-strange,
  weigh-counts,
}
unfoldable use nju_os_workbench.Gpt.Jobs.{rows_from, counts}
unfoldable use nju_os_workbench.Gpt.Queue.{weigh}
unfoldable use nju_os_workbench.Gpt.Invariant.{replay}
use nju_os_workbench.Gpt.Run.{Run, matmul_forward-done}

abbrev pub height : Product → ℕ
height p = p.batches * p.tokens

-- The result overlaps with nothing that is read.
pub record NoOverlap (p : Product) : Type 0 where
  pub inputs :
      (i : ℕ) → i < height p * p.channels → Beyond p.out (height p * p.out_channels) (p.inp + i)
  pub weights :
      (i : ℕ)
      → i < p.out_channels * p.channels
      → Beyond p.out (height p * p.out_channels) (p.weight + i)
  pub biases :
      (b o : ℕ)
      → p.bias ≡ some b
      → o < p.out_channels
      → Beyond p.out (height p * p.out_channels) (b + o)

row_end : (r n k : ℕ) → r < n → r * k + k ≤ n * k
row_end r n k lt = grind arith

module _ (p : Product) {F : Type 0} (ops : FloatOps F) (start : Floats F) where
  -- The products of the first `n` floats of row `r` of the input and of row `o` of the weights, added
  -- to the bias.
  unfoldable pub entry : (r o n : ℕ) → F
  entry r o zero = bias_at ops p.bias o start
  entry r o (suc n) =
      ops.add (entry r o n)
        (ops.mul (start (p.inp + r * p.channels + n)) (start (p.weight + o * p.channels + n)))

  dot_loop-entry :
      (rounds i r o : ℕ)
      → dot_loop ops rounds i
          (p.inp + r * p.channels)
          (p.weight + o * p.channels)
          (entry r o i)
          start
        ≡ entry r o (i + rounds)
  unfolding dot_loop entry
  dot_loop-entry zero i r o = ap (entry r o) (omega arith)
  dot_loop-entry (suc rounds) i r o =
      let next : suc i ≡ i + 1 = omega arith in
      ap
        (λ (v : F).
          dot_loop ops rounds (i + 1) (p.inp + r * p.channels) (p.weight + o * p.channels) v start)
        (ap (entry r o) next)
      ∙ dot_loop-entry rounds (i + 1) r o
      ∙ ap (entry r o) (omega arith)

  cell-entry : (r o : ℕ) → cell ops (row p r) o start ≡ entry r o p.channels
  unfolding cell entry
  cell-entry r o = dot_loop-entry p.channels 0 r o ∙ ap (entry r o) (omega arith)

module _ (p : Product) (free : NoOverlap p) where
  narrower :
      (r q : ℕ)
      → r < height p
      → Beyond p.out (height p * p.out_channels) q
      → Beyond (p.out + r * p.out_channels) p.out_channels q
  narrower r q lt (inl h) = inl (omega arith)
  narrower r q lt (inr h) = inr (omega (arith, row_end r (height p) p.out_channels lt))

  input_free :
      (r i : ℕ)
      → r < height p
      → i < p.channels
      → Beyond p.out (height p * p.out_channels) (p.inp + r * p.channels + i)
  input_free r i lt small =
      let place : p.inp + (r * p.channels + i) ≡ p.inp + r * p.channels + i = omega arith in
      subst (Beyond p.out (height p * p.out_channels)) place
        (free.inputs (r * p.channels + i) (omega (arith, row_end r (height p) p.channels lt)))

  weight_free :
      (o i : ℕ)
      → o < p.out_channels
      → i < p.channels
      → Beyond p.out (height p * p.out_channels) (p.weight + o * p.channels + i)
  weight_free o i lt small =
      let place : p.weight + (o * p.channels + i) ≡ p.weight + o * p.channels + i = omega arith in
      subst (Beyond p.out (height p * p.out_channels)) place
        (free.weights (o * p.channels + i) (omega (arith, row_end o p.out_channels p.channels lt)))

  row-IsApart : (r : ℕ) → r < height p → IsApart (row p r)
  row-IsApart r lt = record {
    inputs = λ i small. narrower r _ lt (input_free r i lt small);
    weights = λ o i o_small small. narrower r _ lt (weight_free o i o_small small);
    biases = λ b o e o_small. narrower r (b + o) lt (free.biases b o e o_small);
  }

  -- a cell of a row is in no other row
  other_row :
      (r r' o : ℕ)
      → r ≢ r'
      → o < p.out_channels
      → Beyond (p.out + r' * p.out_channels) p.out_channels (p.out + r * p.out_channels + o)
  other_row r r' o ne lt = elim (dec_lt r r') [
    | yes before ↦ inl (omega (arith, row_end r r' p.out_channels before))
    | no after ↦
        let above : r' < r = ground (arith, ne) in
        inr (omega (arith, row_end r' r p.out_channels above))
  ]

  module _ {F : Type 0} (ops : FloatOps F) (start : Floats F) where
    replay_outside :
        (log : List Job)
        → weigh (strange p (height p)) log ≡ 0
        → (q : ℕ) → Beyond p.out (height p * p.out_channels) q
        → replay (calc ops) log start q ≡ start q
    unfolding replay weigh
    replay_outside [] none_strange q beyond = refl
    replay_outside (j ∷ log) none_strange q beyond =
        let known : is_row p (height p) j ≡ true = ground arith in
        let (r, lt, is) = is_row_sound p (height p) j known in
        let m = replay (calc ops) log start in
        ap (λ (k : Job). calc ops k m q) is
        ∙ (calc_lem ops (row p r) m (row-IsApart r lt)).0 q (narrower r q lt beyond)
        ∙ replay_outside log (omega arith) q beyond

    replay-row :
        (log : List Job) (r o : ℕ)
        → weigh (strange p (height p)) log ≡ 0
        → r < height p
        → 1 ≤ weigh (counts p r) log
        → o < p.out_channels
        → replay (calc ops) log start (p.out + r * p.out_channels + o) ≡ cell ops (row p r) o start
    unfolding replay weigh counts
    replay-row [] r o none_strange lt counted o_lt = absurd (omega arith)
    replay-row (j ∷ log) r o none_strange lt counted o_lt =
        let known : is_row p (height p) j ≡ true = ground arith in
        let (r', lt', is) = is_row_sound p (height p) j known in
        let rest : weigh (strange p (height p)) log ≡ 0 = omega arith in
        let m = replay (calc ops) log start in
        elim (Job-discrete j (row p r)) [
          | yes same ↦
              ap (λ (k : Job). calc ops k m (p.out + r * p.out_channels + o)) same
              ∙ (calc_lem ops (row p r) m (row-IsApart r lt)).1 o o_lt
              ∙ cell_same ops (row p r) o m start
                  (λ i small. replay_outside log rest _ (input_free r i lt small))
                  (λ i small. replay_outside log rest _ (weight_free o i o_lt small))
                  (λ b e. replay_outside log rest (b + o) (free.biases b o e o_lt))
          | no other ↦
              let apart : r ≢ r' = λ e. other (is ∙ ap (row p) (sym e)) in
              let more : 1 ≤ weigh (counts p r) log = omega (arith, counts_ne p r j other) in
              ap (λ (k : Job). calc ops k m (p.out + r * p.out_channels + o)) is
              ∙ (calc_lem ops (row p r') m (row-IsApart r' lt')).0 (p.out + r * p.out_channels + o)
                  (other_row r r' o apart o_lt)
              ∙ replay-row log r o rest lt more o_lt
        ]

    -- Where the result overlaps with nothing that is read, when the call returns after any run of
    -- the threads, each cell of each row is the sum of the bias and of the products, in the order
    -- of the source, over the memory at the call, and all floats outside of the result are what
    -- they were.
    pub matmul_forward-cells :
        (n : ℕ) {s : System (Floats F)}
        → Run (calc ops) n s (matmul_jobs p) start
        → s.main ≡ returned
        → ((r o : ℕ)
            → r < height p
            → o < p.out_channels
            → s.mem (p.out + r * p.out_channels + o) ≡ entry p ops start r o p.channels)
          × ((q : ℕ) → Beyond p.out (height p * p.out_channels) q → s.mem q ≡ start q)
    unfolding matmul_jobs
    matmul_forward-cells n {s} run at_rest =
        let (once, mem_is) = matmul_forward-done (calc ops) n run at_rest in
        let jobs : matmul_jobs p ≡ rows_from p (height p) (0 * p.tokens) =
          batch_jobs-rows p p.batches 0 in
        let first : 0 * p.tokens ≡ 0 = omega arith in
        let known : weigh (strange p (height p)) s.log ≡ 0 =
          once (strange p (height p))
          ∙ ap (weigh (strange p (height p))) jobs
          ∙ weigh-strange p (height p) (height p) (0 * p.tokens) (omega arith) in
        (
          λ r o lt o_lt.
              let counted : 1 ≤ weigh (counts p r) s.log =
                rw (once (counts p r) ∙ ap (weigh (counts p r)) jobs)
                  (weigh-counts p (height p) (0 * p.tokens) r (omega arith) (omega arith)) in
              ap (λ (m : Floats F). m (p.out + r * p.out_channels + o)) mem_is
              ∙ replay-row s.log r o known lt counted o_lt
              ∙ cell-entry p ops start r o,
          λ q beyond. ap (λ (m : Floats F). m q) mem_is ∙ replay_outside s.log known q beyond,
        )
