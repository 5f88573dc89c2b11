-- ===== src/Gpt/Invariant.antt =====
-- What holds in M3-gpt/gpt.c between any two critical sections of `matmul_forward` and `worker`, and
-- that each of them keeps it and fails no `assert`.
use nju_os_workbench.Gpt.Pool.{
  idle, taken, calculated, exited, producing, blocked, returned, joining, moves, waits, abort, Job,
  Worker, Main, System, Move,
}
unfoldable use nju_os_workbench.Gpt.Queue.{weigh, queued, over}
use nju_os_workbench.Base.{
  ◌≢◌, ℕ, ◌+◌, ◌%◌, ◌≤◌, ◌<◌, ◌≡◌, refl, Bool, true, false, List, [], ◌∷◌, if◌then◌else◌,
}

-- the job that a worker has taken and not calculated
abbrev pub held : (Job → ℕ) → Worker → ℕ
held w (taken job) = w job
held w idle = 0
held w calculated = 0
held w exited = 0

-- a worker that has taken a job and not counted it off `remaining`
abbrev pub busy : Worker → ℕ
busy (taken job) = 1
busy idle = 0
busy calculated = 1
busy exited = 0

-- the jobs that `matmul_forward` has not pushed
abbrev pub to_push : Main → List Job
to_push (producing jobs) = jobs
to_push (blocked job jobs) = job ∷ jobs
to_push returned = []
to_push joining = []

abbrev pub counted_early : Main → ℕ
counted_early (producing jobs) = 0
counted_early (blocked job jobs) = 1
counted_early returned = 0
counted_early joining = 0

abbrev pub quiet : Main → Bool
quiet (producing jobs) = false
quiet (blocked job jobs) = false
quiet returned = true
quiet joining = true

abbrev pub is_joining : Main → Bool
is_joining (producing jobs) = false
is_joining (blocked job jobs) = false
is_joining returned = false
is_joining joining = true

pub joining-quiet : (m : Main) → is_joining m ≡ true → quiet m ≡ true
joining-quiet joining h = refl
joining-quiet (producing jobs) h = cc
joining-quiet (blocked job jobs) h = cc
joining-quiet returned h = cc

-- The memory behind the jobs of the log.
unfoldable pub replay : {M : Type 0} → (Job → M → M) → List Job → M → M
replay calc [] start = start
replay calc (job ∷ log) start = calc job (replay calc log start)

-- `n` workers; `jobs` and `start` are what the last call of `matmul_forward` was called with.
pub record Inv {M : Type 0} (calc : Job → M → M) (n : ℕ) (jobs : List Job) (start : M)
    (s : System M) : Type 0 where
  pub head_small : s.pool.head < 10
  pub count_small : s.pool.buf_count ≤ 10
  pub tail_is : s.pool.tail ≡ (s.pool.head + s.pool.buf_count) % 10
  pub each_once :
      (w : Job → ℕ)
      → weigh w s.log
          + (over (λ i. held w (s.worker i)) n
              + (queued w s.pool.buffer s.pool.head s.pool.buf_count + weigh w (to_push s.main)))
        ≡ weigh w jobs
  pub remaining_is :
      s.pool.remaining ≡ s.pool.buf_count + over (λ i. busy (s.worker i)) n + counted_early s.main
  pub quiet_is : quiet s.main ≡ true → s.pool.remaining ≡ 0
  pub finished_is : s.pool.finished ≡ is_joining s.main
  pub mem_is : s.mem ≡ replay calc s.log start
  pub alive : s.pool.finished ≡ false → (i : ℕ) → s.worker i ≢ exited

-- A step fails no `assert`, and `P` holds behind it.
abbrev pub Safe : {M : Type 0} → (System M → Type 0) → Move M → Type 0
Safe P (moves s) = P s
Safe P waits = Unit
Safe P abort = ⊥

pub if-Safe :
    {M : Type 0} (P : System M → Type 0) (c : Bool) (x y : Move M)
    → (c ≡ true → Safe P x)
    → (c ≡ false → Safe P y)
    → Safe P (if c then x else y)
if-Safe P true x y f g = f refl
if-Safe P false x y f g = g refl
