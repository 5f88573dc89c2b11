-- ===== src/Gpt/Calc.antt =====
-- `calc` of M3-gpt/gpt.c and the jobs of `matmul_forward`. `float` is a parameter, and the memory is one
-- array of floats, in which pointers are indices.
use nju_os_workbench.Base.{
  ℕ, zero, suc, ◌+◌, ◌*◌, Option, none, some, List, [], ◌∷◌, ◌++◌, ◌==◌, if◌then◌else◌,
}
use nju_os_workbench.Gpt.Pool.{Job}

pub record FloatOps (F : Type 0) : Type 0 where
  pub zero_float : F
  pub add : F → F → F
  pub mul : F → F → F

abbrev pub Floats : Type 0 → Type 0
Floats F = ℕ → F

unfoldable pub put_float : {F : Type 0} → Floats F → ℕ → F → Floats F
put_float m p v q = if p == q then v else m q

module _ {F : Type 0} (ops : FloatOps F) where
  open ops use {zero_float, add, mul}

  -- the loop over `i`
  unfoldable pub dot_loop : (rounds i : ℕ) → (inp_bt wrow : ℕ) → F → Floats F → F
  dot_loop zero i inp_bt wrow val m = val
  dot_loop (suc rounds) i inp_bt wrow val m =
      dot_loop rounds (i + 1) inp_bt wrow (add val (mul (m (inp_bt + i)) (m (wrow + i)))) m

  abbrev pub bias_at : Option ℕ → ℕ → Floats F → F
  bias_at none o m = zero_float
  bias_at (some bias) o m = m (bias + o)

  -- what is stored into `out_bt[o]`
  unfoldable pub cell : Job → ℕ → Floats F → F
  cell args o m =
      dot_loop args.channels 0 args.inp_bt (args.weight + o * args.channels) (bias_at args.bias o m)
        m

  unfoldable pub calc_loop : (rounds o : ℕ) → Job → Floats F → Floats F
  calc_loop zero o args m = m
  calc_loop (suc rounds) o args m =
      calc_loop rounds (o + 1) args (put_float m (args.out_bt + o) (cell args o m))

  unfoldable pub calc : Job → Floats F → Floats F
  calc args m = calc_loop args.out_channels 0 args m

-- the arguments of `matmul_forward`
pub record Product : Type 0 where
  pub out : ℕ
  pub inp : ℕ
  pub weight : ℕ
  pub bias : Option ℕ
  pub batches : ℕ
  pub tokens : ℕ
  pub channels : ℕ
  pub out_channels : ℕ

unfoldable pub job_of : Product → (b t : ℕ) → Job
job_of p b t = record {
  out_bt = p.out + b * p.tokens * p.out_channels + t * p.out_channels;
  inp_bt = p.inp + b * p.tokens * p.channels + t * p.channels;
  weight = p.weight;
  bias = p.bias;
  channels = p.channels;
  out_channels = p.out_channels;
}

-- the loop over `t`
unfoldable pub token_jobs : Product → (rounds b t : ℕ) → List Job
token_jobs p zero b t = []
token_jobs p (suc rounds) b t = job_of p b t ∷ token_jobs p rounds b (t + 1)

-- the loop over `b`
unfoldable pub batch_jobs : Product → (rounds b : ℕ) → List Job
batch_jobs p zero b = []
batch_jobs p (suc rounds) b = token_jobs p p.tokens b 0 ++ batch_jobs p rounds (b + 1)

unfoldable pub matmul_jobs : Product → List Job
matmul_jobs p = batch_jobs p p.batches 0
