-- ===== src/Gpt/Asleep.antt =====
-- No wake-up is lost in M3-gpt/gpt.c: a thread that sleeps finds its condition false whenever it is woken.
use nju_os_workbench.Gpt.Pool.{
  Job, Worker, Main, Pool, System, Move, idle, taken, calculated, exited, producing, blocked,
  joining, moves, waits, abort, returned, put_worker,
}
unfoldable use nju_os_workbench.Gpt.Pool.{worker_step, main_step}
use nju_os_workbench.Gpt.Invariant.{quiet}
unfoldable use nju_os_workbench.Gpt.Queue.{over}
use nju_os_workbench.Gpt.Queue.{over-one}
use nju_os_workbench.Gpt.Wake.{
  Threads, Turn, turned, crashes, worker_broadcasts, main_broadcasts, is_blocked,
}
unfoldable use nju_os_workbench.Gpt.Wake.{broadcast, after_worker, after_main}
use nju_os_workbench.Base.{
  ℕ, zero, suc, ◌+◌, ◌≤◌, ◌<◌, ◌≡◌, ◌≢◌, refl, sym, ap, ◌∙◌, subst, ◌⊎◌, inl, inr, Bool, true,
  false, not, ◌&&◌, [], ◌∷◌, arith, ◌==◌, if◌then◌else◌, Bool-cases,
}

-- what keeps a worker asleep, and the main thread
abbrev pub SleepsAs : Worker → (buf_count : ℕ) → (finished : Bool) → Type 0
SleepsAs idle count done = (count ≡ 0) × (done ≡ false)
SleepsAs (taken job) count done = ⊥
SleepsAs calculated count done = ⊥
SleepsAs exited count done = ⊥

abbrev pub SleepsIn : Main → Pool → Type 0
SleepsIn (producing []) p = p.remaining ≢ 0
SleepsIn (producing (job ∷ jobs)) p = ⊥
SleepsIn (blocked job jobs) p = p.buf_count ≡ 10
SleepsIn returned p = ⊥
SleepsIn joining p = ⊥

pub record IsSound {M : Type 0} (t : Threads M) : Type 0 where
  pub main_waits : t.main_asleep ≡ true → SleepsIn t.sys.main t.sys.pool
  pub worker_waits :
      (i : ℕ)
      → t.asleep i ≡ true
      → SleepsAs (t.sys.worker i) t.sys.pool.buf_count t.sys.pool.finished

-- `P` holds behind a step, and `W` where the thread waits
abbrev pub Cases : {M : Type 0} → (System M → Type 0) → Type 0 → Move M → Type 0
Cases P W (moves s) = P s
Cases P W waits = W
Cases P W abort = Unit

if-Cases :
    {M : Type 0} (P : System M → Type 0) (W : Type 0) (c : Bool) (x y : Move M)
    → (c ≡ true → Cases P W x)
    → (c ≡ false → Cases P W y)
    → Cases P W (if c then x else y)
if-Cases P W true x y f g = f refl
if-Cases P W false x y f g = g refl

-- a step of worker `i` that leaves what the others wait for
abbrev pub IsSilent : {M : Type 0} → ℕ → System M → System M → Type 0
IsSilent i s s' =
    (s'.pool ≡ s.pool) × (s'.main ≡ s.main) × ((j : ℕ) → j ≢ i → s'.worker j ≡ s.worker j)

put-other :
    {M : Type 0} (s : System M) (i : ℕ) (x : Worker) (j : ℕ)
    → j ≢ i
    → (put_worker s i x).worker j ≡ s.worker j
put-other s i x j ne = let other : (j == i) ≡ false = ground arith in rw other refl

pub worker-Cases :
    {M : Type 0} (calc : Job → M → M) (s : System M) (i : ℕ) (x : Worker)
    → s.worker i ≡ x
    → x ≢ exited
    → Cases
        (λ s'. worker_broadcasts x s.pool ≡ false → IsSilent i s s')
        (SleepsAs x s.pool.buf_count s.pool.finished)
        (worker_step calc i s)
unfolding worker_step
worker-Cases {M} calc s i idle e on =
    let P = λ (s' : System M). not s.pool.finished ≡ false → IsSilent i s s' in
    let W : Type 0 = (s.pool.buf_count ≡ 0) × (s.pool.finished ≡ false) in
    rw (e, worker_step)
      (if-Cases P W ((s.pool.buf_count == 0) && not s.pool.finished) _ _
        (λ h. (ground arith, ground arith))
        (λ go.
          if-Cases P W s.pool.finished _ _
            (λ done.
              if-Cases P W ((s.pool.buf_count == 0) && (s.pool.remaining == 0)) _ _
                (λ h loud. (refl, refl, put-other s i exited)) (λ h. tt))
            (λ running loud. absurd (ground arith))))
worker-Cases {M} calc s i (taken job) e on =
    rw (e, worker_step)
      (λ loud.
        (refl, refl, put-other (record s { mem = calc job s.mem; log = job ∷ s.log }) i calculated))
worker-Cases {M} calc s i calculated e on =
    let P = λ (s' : System M). true ≡ false → IsSilent i s s' in
    rw (e, worker_step) (if-Cases P ⊥ (s.pool.remaining == 0) _ _ (λ h. tt) (λ h loud. cc))
worker-Cases {M} calc s i exited e on = absurd (on refl)

-- the same of the main thread, which waits itself where it comes out blocked
abbrev pub IsSilentMain : {M : Type 0} → System M → System M → Type 0
IsSilentMain s s' =
    (s'.pool.buf_count ≡ s.pool.buf_count)
    × (s'.pool.finished ≡ s.pool.finished)
    × (s'.worker ≡ s.worker)
    × (is_blocked s'.main ≡ true → SleepsIn s'.main s'.pool)

pub main-Cases :
    {M : Type 0} (s : System M) (m : Main)
    → s.main ≡ m
    → quiet m ≡ false
    → Cases
        (λ s'. main_broadcasts m s.pool ≡ false → IsSilentMain s s')
        (SleepsIn m s.pool)
        (main_step s)
unfolding main_step
main-Cases {M} s (producing []) e busy =
    let P = λ (s' : System M). false ≡ false → IsSilentMain s s' in
    rw (e, main_step)
      (if-Cases P (s.pool.remaining ≢ 0) (s.pool.remaining == 0) _ _
        (λ h loud. (refl, refl, refl, λ b. cc)) (λ h. λ none. ground arith))
main-Cases {M} s (producing (job ∷ jobs)) e busy =
    let P = λ (s' : System M). not (s.pool.buf_count == 10) ≡ false → IsSilentMain s s' in
    rw (e, main_step)
      (if-Cases P ⊥ (s.pool.buf_count == 10) _ _ (λ h loud. (refl, refl, refl, λ b. ground arith))
        (λ h loud. absurd (ground arith)))
main-Cases {M} s (blocked job jobs) e busy =
    let P = λ (s' : System M). true ≡ false → IsSilentMain s s' in
    rw (e, main_step)
      (if-Cases P (s.pool.buf_count ≡ 10) (s.pool.buf_count == 10) _ _ (λ h. ground arith)
        (λ h loud. cc))
main-Cases {M} s returned e busy = cc
main-Cases {M} s joining e busy = cc

-- the threads that are awake
abbrev pub up : Bool → ℕ
up b = if b then 0 else 1

abbrev pub awake : {M : Type 0} → ℕ → Threads M → ℕ
awake n t = up t.main_asleep + over (λ j. up (t.asleep j)) n

up-le : (b : Bool) → up b ≤ 1
up-le true = omega arith
up-le false = omega arith

over-le : (f : ℕ → ℕ) (n : ℕ) → ((j : ℕ) → f j ≤ 1) → over f n ≤ n
unfolding over
over-le f zero h = omega arith
over-le f (suc n) h = omega (arith, h n, over-le f n h)

pub awake-le : {M : Type 0} (n : ℕ) (t : Threads M) → awake n t ≤ suc n
awake-le n t =
    omega (arith, up-le t.main_asleep, over-le (λ j. up (t.asleep j)) n (λ j. up-le (t.asleep j)))

-- one flag changes
pub over-flag :
    (n i : ℕ) (flags : ℕ → Bool) (b : Bool)
    → i < n
    → over (λ j. up (if j == i then b else flags j)) n + up (flags i)
      ≡ over (λ j. up (flags j)) n + up b
over-flag n i flags b lt =
    let self : (i == i) ≡ true = ground arith in
    let one =
      over-one (λ j. up (if j == i then b else flags j)) (λ j. up (flags j)) n i lt
        (λ j ne. let other : (j == i) ≡ false = ground arith in rw other refl) in
    subst
      (λ c.
        over (λ j. up (if j == i then b else flags j)) n + up (flags i)
        ≡ over (λ j. up (flags j)) n + up (if c then b else flags i))
      self one

-- What a turn from `t` to `t'` amounts to: the step `m` of the system, or one more thread asleep.
abbrev pub Amounts : {M : Type 0} → ℕ → Threads M → Move M → Threads M → Type 0
Amounts n t m t' = IsSound t' × ((m ≡ moves t'.sys) ⊎ ((t'.sys ≡ t.sys) × (awake n t' < awake n t)))

abbrev pub After : {M : Type 0} → (Threads M → Type 0) → Turn M → Type 0
After P (turned t) = P t
After P crashes = Unit

all_up-IsSound : {M : Type 0} (s : System M) → IsSound (broadcast s)
unfolding broadcast
all_up-IsSound s = record { main_waits = λ e. cc; worker_waits = λ i e. cc }

pub after_worker-Amounts :
    {M : Type 0} (n : ℕ) (t : Threads M) (i : ℕ) (m : Move M) (b : Bool)
    → i < n
    → IsSound t
    → t.asleep i ≡ false
    → Cases
        (λ (s' : System M). b ≡ false → IsSilent i t.sys s')
        (SleepsAs (t.sys.worker i) t.sys.pool.buf_count t.sys.pool.finished)
        m
    → After (Amounts n t m) (after_worker i t m b)
unfolding after_worker broadcast
after_worker-Amounts n t i (moves s) true lt sound up_i c = (all_up-IsSound s, inl refl)
after_worker-Amounts n t i (moves s) false lt sound up_i c =
    let (pool, main, others) = c refl in
    (
      record {
        main_waits = λ e. rw (pool, main) (sound.main_waits e);
        worker_waits = λ j e. elim (Bool-cases (j == i)) [
          | inl here ↦
              let same : j ≡ i = ground arith in
              absurd (
                let up_j = ap t.asleep same in let never : true ≡ false = sym e ∙ up_j ∙ up_i in cc)
          | inr away ↦ rw (pool, others j (λ same. ground arith)) (sound.worker_waits j e)
        ];
      },
      inl refl,
    )
after_worker-Amounts n t i waits b lt sound up_i c = (
  record {
    main_waits = sound.main_waits;
    worker_waits = λ j e. elim (Bool-cases (j == i)) [
      | inl here ↦
          let same : i ≡ j = ground arith in
          subst (λ k. SleepsAs (t.sys.worker k) t.sys.pool.buf_count t.sys.pool.finished) same c
      | inr away ↦ sound.worker_waits j (rw away at e)
    ];
  },
  inr (refl, let count = over-flag n i t.asleep true lt in let was = ap up up_i in omega arith),
)
after_worker-Amounts n t i abort b lt sound up_i c = tt

pub after_main-Amounts :
    {M : Type 0} (n : ℕ) (t : Threads M) (m : Move M) (b : Bool)
    → IsSound t
    → t.main_asleep ≡ false
    → Cases
        (λ (s' : System M). b ≡ false → IsSilentMain t.sys s')
        (SleepsIn t.sys.main t.sys.pool)
        m
    → After (Amounts n t m) (after_main t m b)
unfolding after_main broadcast
after_main-Amounts n t (moves s) true sound awake_main c = (all_up-IsSound s, inl refl)
after_main-Amounts n t (moves s) false sound awake_main c =
    let (count, done, workers, waits_there) = c refl in
    (
      record {
        main_waits = waits_there;
        worker_waits = λ j e. rw (count, done, workers) (sound.worker_waits j e);
      },
      inl refl,
    )
after_main-Amounts n t waits b sound awake_main c = (
  record { main_waits = λ e. c; worker_waits = sound.worker_waits },
  inr (refl, let was = ap up awake_main in omega arith),
)
after_main-Amounts n t abort b sound awake_main c = tt
