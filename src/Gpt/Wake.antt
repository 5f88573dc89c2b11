-- ===== src/Gpt/Wake.antt =====
-- Sleeping and waking in M3-gpt/gpt.c: all threads wait on the one condition variable `cv`. A thread
-- that finds its condition false sleeps in `cond_wait`, and takes no further turn until a
-- `cond_broadcast` of another thread, or a wake-up without a cause, which POSIX allows, ends it.
use nju_os_workbench.Gpt.Pool.{
  Job, Worker, Main, Pool, System, Move, idle, taken, calculated, exited, producing, blocked,
  joining, moves, waits, abort, returned, buffer_size,
}
unfoldable use nju_os_workbench.Gpt.Pool.{worker_step, main_step, call, finish}
unfoldable use nju_os_workbench.Gpt.Run.{boot}
use nju_os_workbench.Gpt.Invariant.{quiet}
use nju_os_workbench.Base.{
  ℕ, suc, ◌<◌, ◌≡◌, ◌≢◌, Bool, true, false, not, List, [], ◌∷◌, ◌==◌, if◌then◌else◌,
}

-- the threads, and which of them sleep in `cond_wait`
pub record Threads (M : Type 0) : Type 0 where
  pub sys : System M
  pub main_asleep : Bool
  pub asleep : ℕ → Bool

pub data Turn (M : Type 0) : Type 0 where
  turned : Threads M → Turn M
  crashes : Turn M

-- `cond_broadcast`
unfoldable pub broadcast : {M : Type 0} → System M → Threads M
broadcast s = record { sys = s; main_asleep = false; asleep = λ i. false }

-- whether the critical section that a worker goes through ends with `cond_broadcast`
abbrev pub worker_broadcasts : Worker → Pool → Bool
worker_broadcasts idle p = not p.finished
worker_broadcasts (taken job) p = false
worker_broadcasts calculated p = true
worker_broadcasts exited p = false

-- the same for the main thread, where that of `matmul_forward` may begin with a `cond_wait`
abbrev pub main_broadcasts : Main → Pool → Bool
main_broadcasts (producing []) p = false
main_broadcasts (producing (job ∷ jobs)) p = not (p.buf_count == buffer_size)
main_broadcasts (blocked job jobs) p = true
main_broadcasts returned p = false
main_broadcasts joining p = false

abbrev pub is_blocked : Main → Bool
is_blocked (blocked job jobs) = true
is_blocked (producing jobs) = false
is_blocked returned = false
is_blocked joining = false

unfoldable pub after_worker : {M : Type 0} → ℕ → Threads M → Move M → Bool → Turn M
after_worker i t (moves s) true = turned (broadcast s)
after_worker i t (moves s) false = turned (record t { sys = s })
after_worker i t waits b = turned (record t { asleep = λ j. if j == i then true else t.asleep j })
after_worker i t abort b = crashes

unfoldable pub worker_turn : {M : Type 0} → (calc : Job → M → M) → ℕ → Threads M → Turn M
worker_turn calc i t =
    after_worker i t (worker_step calc i t.sys) (worker_broadcasts (t.sys.worker i) t.sys.pool)

unfoldable pub after_main : {M : Type 0} → Threads M → Move M → Bool → Turn M
after_main t (moves s) true = turned (broadcast s)
after_main t (moves s) false = turned (record t { sys = s; main_asleep = is_blocked s.main })
after_main t waits b = turned (record t { main_asleep = true })
after_main t abort b = crashes

unfoldable pub main_turn : {M : Type 0} → Threads M → Turn M
main_turn t = after_main t (main_step t.sys) (main_broadcasts t.sys.main t.sys.pool)

-- `cond_wait` ends in one thread without a cause
abbrev pub wake_worker : {M : Type 0} → ℕ → Threads M → Threads M
wake_worker i t = record t { asleep = λ j. if j == i then false else t.asleep j }

abbrev pub wake_main : {M : Type 0} → Threads M → Threads M
wake_main t = record t { main_asleep = false }

module _ {M : Type 0} (calc : Job → M → M) (n : ℕ) where
  -- A thread that is awake takes its turn: the main thread in `matmul_forward`, or a worker in its loop.
  pub data Takes (t t' : Threads M) : Type 0 where
    by_main :
        t.main_asleep ≡ false → quiet t.sys.main ≡ false → main_turn t ≡ turned t' → Takes t t'
    by_worker :
        (i : ℕ)
        → i < n
        → t.asleep i ≡ false
        → t.sys.worker i ≢ exited
        → worker_turn calc i t ≡ turned t'
        → Takes t t'

  -- `k` turns, with `w` wake-ups without a cause among them
  pub data Turns : (t : Threads M) (k w : ℕ) (t' : Threads M) → Type 0 where
    here : {t : Threads M} → Turns t 0 0 t
    next : {t t' t'' : Threads M} {k w : ℕ} → Takes t t' → Turns t' k w t'' → Turns t (suc k) w t''
    wakes :
        {t t'' : Threads M} {k w : ℕ} (i : ℕ)
        → i < n
        → Turns (wake_worker i t) k w t''
        → Turns t k (suc w) t''
    main_wakes : {t t'' : Threads M} {k w : ℕ} → Turns (wake_main t) k w t'' → Turns t k (suc w) t''

  -- a run of the program up to `t`, where the last call of `matmul_forward` was that of `jobs` in memory
  -- `start`
  pub data Reached : (t : Threads M) (jobs : List Job) (start : M) → Type 0 where
    boots : (buffer : ℕ → Job) (mem : M) → Reached (broadcast (boot buffer mem)) [] mem
    calls :
        {t : Threads M} {s : System M} {jobs jobs' : List Job} {start start' : M}
        → Reached t jobs start
        → t.sys.main ≡ returned
        → call jobs' start' t.sys ≡ moves s
        → Reached (record t { sys = s }) jobs' start'
    goes :
        {t t' : Threads M} {k w : ℕ} {jobs : List Job} {start : M}
        → Reached t jobs start
        → Turns t k w t'
        → Reached t' jobs start
    finishes :
        {t : Threads M} {s : System M} {jobs : List Job} {start : M}
        → Reached t jobs start
        → t.sys.main ≡ returned
        → finish t.sys ≡ moves s
        → Reached (broadcast s) jobs start
