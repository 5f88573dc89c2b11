-- ===== src/Gpt/Turning.antt =====
-- The turns of the threads of M3-gpt/gpt.c against the steps of the system, and who is awake.
use nju_os_workbench.Gpt.Pool.{
  Job, Worker, Main, System, Move, idle, taken, calculated, exited, producing, blocked, joining,
  moves, waits, returned,
}
unfoldable use nju_os_workbench.Gpt.Pool.{call, worker_step, main_step}
use nju_os_workbench.Gpt.Invariant.{quiet}
use nju_os_workbench.Gpt.Run.{Step, Run, Run-Inv, over-zero, call-Safe, Step-Inv}
use nju_os_workbench.Gpt.Run as Run
use nju_os_workbench.Gpt.Wake.{
  Threads, turned, Takes, by_main, by_worker, Turns, here, next, wakes, main_wakes, Reached, boots,
  calls, goes, finishes, wake_worker, wake_main, worker_broadcasts, main_broadcasts,
}
unfoldable use nju_os_workbench.Gpt.Wake.{
  broadcast, after_worker, after_main, worker_turn, main_turn,
}
use nju_os_workbench.Gpt.Asleep.{
  SleepsAs, SleepsIn, IsSound, Cases, After, Amounts, awake, worker-Cases, main-Cases,
  after_worker-Amounts, after_main-Amounts,
}
use nju_os_workbench.Base.{
  ℕ, ◌<◌, ◌≡◌, ◌≢◌, refl, sym, ap, ◌∙◌, subst, ◌⊎◌, inl, inr, Bool, true, false, List, [], ◌∷◌,
  arith, ◌==◌, Bool-cases,
}

module _ {M : Type 0} (calc : Job → M → M) (n : ℕ) where
  pub Takes-Amounts :
      {t t' : Threads M}
      → IsSound t
      → Takes calc n t t'
      → IsSound t' × (Step calc n t.sys t'.sys ⊎ ((t'.sys ≡ t.sys) × (awake n t' < awake n t)))
  unfolding worker_turn main_turn
  Takes-Amounts {t} sound (by_main up_main busy_main e) =
      let (sound', how) = subst (After (Amounts n t (main_step t.sys))) e (
        after_main-Amounts n t (main_step t.sys) (main_broadcasts t.sys.main t.sys.pool) sound
          up_main (main-Cases t.sys t.sys.main refl busy_main)) in
      (sound', elim how [ inl step ↦ inl (Run.by_main step) | inr sleeps ↦ inr sleeps ])
  Takes-Amounts {t} sound (by_worker i lt up_i on e) =
      let (sound', how) = subst (After (Amounts n t (worker_step calc i t.sys))) e (
        after_worker-Amounts n t i (worker_step calc i t.sys)
          (worker_broadcasts (t.sys.worker i) t.sys.pool) lt sound up_i
          (worker-Cases calc t.sys i (t.sys.worker i) refl on)) in
      (sound', elim how [ inl step ↦ inl (Run.by_worker i lt step) | inr sleeps ↦ inr sleeps ])

  pub wake_worker-IsSound : (i : ℕ) (t : Threads M) → IsSound t → IsSound (wake_worker i t)
  wake_worker-IsSound i t sound = record {
    main_waits = sound.main_waits;
    worker_waits = λ j e. elim (Bool-cases (j == i)) [
      | inl here_i ↦ absurd (let never : false ≡ true = rw here_i at e in cc)
      | inr away ↦ sound.worker_waits j (rw away at e)
    ];
  }

  pub wake_main-IsSound : (t : Threads M) → IsSound t → IsSound (wake_main t)
  wake_main-IsSound t sound = record { main_waits = λ e. cc; worker_waits = sound.worker_waits }

  -- the systems on the way are those of a run
  Turns-Run :
      {t t' : Threads M} {k w : ℕ} {jobs : List Job} {start : M}
      → IsSound t
      → Run calc n t.sys jobs start
      → Turns calc n t k w t'
      → IsSound t' × Run calc n t'.sys jobs start
  Turns-Run sound run here = (sound, run)
  Turns-Run {jobs} {start} sound run (next take turns) =
      let (sound', how) = Takes-Amounts sound take in
      elim how [
        | inl step ↦ Turns-Run sound' (Run.goes run step) turns
        | inr (same, less) ↦
            Turns-Run sound' (subst (λ s. Run calc n s jobs start) (sym same) run) turns
      ]
  Turns-Run {t} sound run (wakes i lt turns) = Turns-Run (wake_worker-IsSound i t sound) run turns
  Turns-Run {t} sound run (main_wakes turns) = Turns-Run (wake_main-IsSound t sound) run turns

  pub call-IsSound :
      (t : Threads M) (jobs : List Job) (start : M)
      → IsSound t
      → t.sys.main ≡ returned
      → Cases (λ (s : System M). IsSound (record t { sys = s })) Unit (call jobs start t.sys)
  unfolding call
  call-IsSound t jobs start sound at_rest = elim (Bool-cases (t.sys.pool.remaining == 0)) [
    | inl none_left ↦
        rw (none_left, call)
          (record {
            main_waits =
                λ e. absurd (subst (λ m. SleepsIn m t.sys.pool) at_rest (sound.main_waits e));
            worker_waits = sound.worker_waits;
          })
    | inr some_left ↦ rw (some_left, call) tt
  ]

  broadcast-IsSound : (s : System M) → IsSound (broadcast s)
  unfolding broadcast
  broadcast-IsSound s = record { main_waits = λ e. cc; worker_waits = λ i e. cc }

  pub Reached-Run :
      {t : Threads M} {jobs : List Job} {start : M}
      → Reached calc n t jobs start
      → IsSound t × Run calc n t.sys jobs start
  unfolding broadcast
  Reached-Run (boots buffer mem) = (broadcast-IsSound _, Run.boots buffer mem)
  Reached-Run (calls {t} {s} {jobs} {jobs'} {start} {start'} reached at_rest e) =
      let (sound, run) = Reached-Run reached in
      (
        subst (Cases (λ (s : System M). IsSound (record t { sys = s })) Unit) e
            (call-IsSound t jobs' start' sound at_rest),
        Run.calls run at_rest e,
      )
  Reached-Run (goes reached turns) =
      let (sound, run) = Reached-Run reached in Turns-Run sound run turns
  Reached-Run (finishes {t} {s} reached at_rest e) =
      let (sound, run) = Reached-Run reached in (broadcast-IsSound s, Run.finishes run at_rest e)

  after_worker-turned :
      (i : ℕ) (t : Threads M) (s : System M) (b : Bool)
      → (t' : Threads M) × (after_worker i t (moves s) b ≡ turned t')
  unfolding after_worker
  after_worker-turned i t s true = (_, refl)
  after_worker-turned i t s false = (_, refl)

  after_main-turned :
      (t : Threads M) (s : System M) (b : Bool)
      → (t' : Threads M) × (after_main t (moves s) b ≡ turned t')
  unfolding after_main
  after_main-turned t s true = (_, refl)
  after_main-turned t s false = (_, refl)

  SleepsAs-waits :
      (s : System M) (i : ℕ) (x : Worker)
      → s.worker i ≡ x
      → SleepsAs x s.pool.buf_count s.pool.finished
      → worker_step calc i s ≡ waits
  unfolding worker_step
  SleepsAs-waits s i idle e (empty, running) =
      let test : (s.pool.buf_count == 0) ≡ true = ground arith in
      rw (e, test, running, worker_step) refl
  SleepsAs-waits s i (taken job) e h = absurd h
  SleepsAs-waits s i calculated e h = absurd h
  SleepsAs-waits s i exited e h = absurd h

  SleepsIn-waits : (s : System M) (m : Main) → s.main ≡ m → SleepsIn m s.pool → main_step s ≡ waits
  unfolding main_step
  SleepsIn-waits s (producing []) e more =
      let test : (s.pool.remaining == 0) ≡ false = ground arith in rw (e, test, main_step) refl
  SleepsIn-waits s (producing (job ∷ jobs)) e h = absurd h
  SleepsIn-waits s (blocked job jobs) e full =
      let test : (s.pool.buf_count == 10) ≡ true = ground arith in rw (e, test, main_step) refl
  SleepsIn-waits s returned e h = absurd h
  SleepsIn-waits s joining e h = absurd h

  -- who can step is awake
  pub Step-Takes :
      (t : Threads M) (s' : System M)
      → IsSound t
      → quiet t.sys.main ≡ false
      → ((i : ℕ) → t.sys.worker i ≢ exited)
      → Step calc n t.sys s'
      → (t' : Threads M) × Takes calc n t t'
  unfolding worker_turn main_turn
  Step-Takes t s' sound busy_main on (Run.by_main e) =
      let (t', e') = after_main-turned t s' (main_broadcasts t.sys.main t.sys.pool) in
      let turn =
        ap (λ (m : Move M). after_main t m (main_broadcasts t.sys.main t.sys.pool)) e ∙ e' in
      elim (Bool-cases t.main_asleep) [
        | inl sleeps ↦ absurd (
            let never = sym e ∙ SleepsIn-waits t.sys t.sys.main refl (sound.main_waits sleeps) in
            cc)
        | inr up_main ↦ (t', by_main up_main busy_main turn)
      ]
  Step-Takes t s' sound busy_main on (Run.by_worker i lt e) =
      let b = worker_broadcasts (t.sys.worker i) t.sys.pool in
      let (t', e') = after_worker-turned i t s' b in
      let turn = ap (λ (m : Move M). after_worker i t m b) e ∙ e' in
      elim (Bool-cases (t.asleep i)) [
        | inl sleeps ↦ absurd (
            let never =
              sym e ∙ SleepsAs-waits t.sys i (t.sys.worker i) refl (sound.worker_waits i sleeps) in
            cc)
        | inr up_i ↦ (t', by_worker i lt up_i (on i) turn)
      ]
