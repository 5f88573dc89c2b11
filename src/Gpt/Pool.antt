-- ===== src/Gpt/Pool.antt =====
-- The ring buffer and the threads of M3-gpt/gpt.c: `matmul_forward` on the main thread puts one job
-- for each row into the buffer, and the workers take them out. All is done under one mutex but for
-- `calc`, so a step is a critical section, from `mutex_lock` or the end of a `cond_wait` to the next
-- `cond_wait` or `mutex_unlock`. Any thread may take a step here, as `cond_wait` of POSIX may end at
-- any time, which covers all orders; Gpt/Wake says which thread sleeps and what wakes it.
use nju_os_workbench.Base.{
  ℕ, ◌+◌, ◌-◌, ◌%◌, Bool, true, not, ◌&&◌, Option, List, [], ◌∷◌, ◌==◌, if◌then◌else◌,
}

-- `calc_args`, with the pointers as indices of floats; `bias` may be NULL
pub record Job : Type 0 where
  pub out_bt : ℕ
  pub inp_bt : ℕ
  pub weight : ℕ
  pub bias : Option ℕ
  pub channels : ℕ
  pub out_channels : ℕ

abbrev pub buffer_size : ℕ
buffer_size = 10

-- the globals
pub record Pool : Type 0 where
  pub buffer : ℕ → Job
  pub head : ℕ
  pub tail : ℕ
  pub buf_count : ℕ
  pub remaining : ℕ
  pub finished : Bool

unfoldable pub buffer_push : Job → Pool → Pool
buffer_push args p = record p {
  buffer = λ i. if i == p.tail then args else p.buffer i;
  tail = (p.tail + 1) % buffer_size;
  buf_count = p.buf_count + 1;
}

unfoldable pub buffer_pop : Pool → Job × Pool
buffer_pop p =
    (p.buffer p.head, record p { head = (p.head + 1) % buffer_size; buf_count = p.buf_count - 1 })

-- Where a worker is: before the first `mutex_lock` of its loop or in the `cond_wait` behind it,
-- before `calc`, before the second `mutex_lock`, or out of its loop.
pub data Worker : Type 0 where
  idle : Worker
  taken : Job → Worker
  calculated : Worker
  exited : Worker

-- Where the main thread is: in `matmul_forward` with these jobs to push, of which it has counted
-- the first one in `remaining` and waits for room when it is `blocked`; behind `matmul_forward`; or
-- behind `finished = 1`.
pub data Main : Type 0 where
  producing : List Job → Main
  blocked : Job → List Job → Main
  returned : Main
  joining : Main

-- `M` is the memory that `calc` works on; `log`, which the program does not have, lists the jobs that
-- have been calculated since `matmul_forward` was called, the last one first.
pub record System (M : Type 0) : Type 0 where
  pub pool : Pool
  pub mem : M
  pub main : Main
  pub worker : ℕ → Worker
  pub log : List Job

abbrev pub put_worker : {M : Type 0} → System M → ℕ → Worker → System M
put_worker s i w = record s { worker = λ j. if j == i then w else s.worker j }

-- A thread that finds the condition that it waits for false goes on waiting.
pub data Move (M : Type 0) : Type 0 where
  moves : System M → Move M
  waits : Move M
  abort : Move M

-- the loop of `worker`
unfoldable pub worker_step : {M : Type 0} → (calc : Job → M → M) → ℕ → System M → Move M
unfolding buffer_pop
worker_step calc i s = elim (s.worker i) [
  | idle ↦
      if (s.pool.buf_count == 0) && not s.pool.finished
      then waits
      else if s.pool.finished
      then if (s.pool.buf_count == 0) && (s.pool.remaining == 0)
        then moves (put_worker s i exited)
        else abort
      else let (args, pool) = buffer_pop s.pool in
        moves (put_worker (record s { pool = pool }) i (taken args))
  | taken args ↦
      moves (put_worker (record s { mem = calc args s.mem; log = args ∷ s.log }) i calculated)
  | calculated ↦
      if s.pool.remaining == 0
      then abort
      else moves (
          put_worker (record s { pool = record s.pool { remaining = s.pool.remaining - 1 } }) i
            idle)
  | exited ↦ waits
]

-- `buffer_push` with the end of the critical section
abbrev pub pushed : {M : Type 0} → Job → List Job → System M → System M
pushed job jobs s = record s { pool = buffer_push job s.pool; main = producing jobs }

-- `matmul_forward` behind its `assert`
unfoldable pub main_step : {M : Type 0} → System M → Move M
unfolding buffer_push
main_step s = elim s.main [
  | producing [] ↦ if s.pool.remaining == 0 then moves (record s { main = returned }) else waits
  | producing (job ∷ jobs) ↦
      let counted = record s { pool = record s.pool { remaining = s.pool.remaining + 1 } } in
      if s.pool.buf_count == buffer_size
      then moves (record counted { main = blocked job jobs })
      else moves (pushed job jobs counted)
  | blocked job jobs ↦ if s.pool.buf_count == buffer_size then waits else moves (pushed job jobs s)
  | returned ↦ waits
  | joining ↦ waits
]

-- the call, with its `assert`; between two calls the main thread may have changed the memory
unfoldable pub call : {M : Type 0} → List Job → M → System M → Move M
call jobs mem s =
    if s.pool.remaining == 0
    then moves (record s { main = producing jobs; mem = mem; log = [] })
    else abort

-- the end of `main`, where it sets `finished`
unfoldable pub finish : {M : Type 0} → System M → Move M
finish s = moves (record s { main = joining; pool = record s.pool { finished = true } })
