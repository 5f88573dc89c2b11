-- ===== src/Libco/Actions.antt =====
-- Each call of M2-libco/co.c, from one piece of user code to the next, keeps the invariant.
use nju_os_workbench.Base.{
  ℕ, zero, suc, ◌+◌, ◌≤◌, ◌≡◌, ◌≢◌, refl, ◌∙◌, true, Option, none, some, List, length, arith, ◌==◌,
  if◌then◌else◌, Bool-cases, Option-cases, inl, inr,
}
use nju_os_workbench.Libco.Store.{
  Ptr, null, Status, Place, in_user, in_wait, in_wrapper, Co, task, State, is_dead,
}
use nju_os_workbench.Libco.Chain.{has, Chain, Chain-block, without, has-without_ne, load-ok}
use nju_os_workbench.Libco.Sound.{Sound-remove}
use nju_os_workbench.Libco.Unlink.{remove_co-without}
use nju_os_workbench.Libco.Invariant.{Listed, view, Inv, Ends, Ends-bind, Ends-forget}
use nju_os_workbench.Libco.Switch.{Switched, switch_from-Switched, NoneReady}
use nju_os_workbench.Libco.{remove_co, go_on, co_yield, switch_from}

-- the current coroutine runs its own code, in a sound system
abbrev pub Ready : State → Type 0
Ready s = (ps : List Ptr) × Inv s in_user ps

pub task-none : (o : Option Co) → task o ≡ none → o ≡ none
task-none none e = refl
task-none (some c) e = cc

pub member_of_block :
    (s : State) (ps : List Ptr) (q : Ptr) (c : Co)
    → Listed s ps
    → s.heap q ≡ some c
    → has q ps ≡ true
member_of_block s ps q c l is = elim (Bool-cases (has q ps)) [
  | inl m ↦ m
  | inr out ↦ cc (l.only q out)
]

-- the place of the current coroutine in the view
pub view-current :
    (s : State) (k : Place) (me : Co)
    → s.heap s.current ≡ some me
    → view s k s.current ≡ some (record { status = me.status; context = k; waiter = me.waiter })
unfolding view
view-current s k me is = ground arith

module _ (s : State) (c : Ptr) (ps : List Ptr) (inv : Inv s (in_wait c) ps) (me y : Co)
    (is_me : s.heap s.current ≡ some me) (is_y : s.heap c ≡ some y) (over : y.status ≡ Status.dead)
    (lives : me.status ≢ Status.dead) where
  removed-Inv :
      (s' : State)
      → Chain s'.heap s'.head (without c ps)
      → s'.co_num ≡ length (without c ps)
      → s'.current ≡ s.current
      → ((q : Ptr) → task (s'.heap q) ≡ (if q == c then none else task (s.heap q)))
      → Inv s' in_user (without c ps)
  unfolding view
  removed-Inv s' chain count cur tasks = record {
    listed = record {
      chain = chain;
      count = count;
      current_in = rw cur (has-without_ne s.current c ps (ground arith) ∙ inv.listed.current_in);
      only = λ q out.
          task-none (s'.heap q) (ground (arith, tasks q, has-without_ne q c ps, inv.listed.only q));
    };
    sound =
        Sound-remove (view s (in_wait c)) (view s' in_user) s.current c
          (record { status = me.status; context = in_wait c; waiter = me.waiter })
          (record { status = y.status; context = y.context; waiter = y.waiter }) inv.sound
          (ground arith) refl lives (ground arith) over (λ q. ground (arith, tasks q));
    begun = ground (arith, tasks s.current, inv.begun);
    alive = λ e. ground (arith, tasks s.current);
  }

  -- `remove_co` at the end of `co_wait`
  removed-Ready : (S : Type 0) → Ends S (λ _ s'. Ready s') (remove_co c s)
  removed-Ready S =
      let (s', run, chain, count, cur, tasks) =
        remove_co-without c ps s inv.listed.chain inv.listed.count
          (member_of_block s ps c y inv.listed is_y) (ground arith) in
      rw run (without c ps, removed-Inv s' chain count cur tasks)

-- what the current coroutine, in the loop of `co_wait` on `c`, knows of `c`
record Awaited (s : State) (c : Ptr) (me : Co) : Type 0 where
  not_null : c ≢ null
  block : Co
  is : s.heap c ≡ some block
  over : me.status ≡ Status.running → block.status ≡ Status.dead

module _ (s : State) (c : Ptr) (ps : List Ptr) (inv : Inv s (in_wait c) ps) (me : Co)
    (is_me : s.heap s.current ≡ some me) (lives : me.status ≢ Status.dead)
    (ne : s.current ≢ null) where
  not_gone : s.heap c ≢ none
  unfolding view
  not_gone gone = ground (arith, inv.sound.target s.current c)

  awaited_over : (y : Co) → s.heap c ≡ some y → me.status ≡ Status.running → y.status ≡ Status.dead
  unfolding view
  awaited_over y is run = ground (arith, inv.sound.woken s.current c)

  awaited : Awaited s c me
  awaited = elim (Option-cases (s.heap c)) [
    | inl gone ↦ absurd (not_gone gone)
    | inr (y, is) ↦
        let m = member_of_block s ps c y inv.listed is in
        record {
          not_null = (Chain-block s.heap s.head c ps inv.listed.chain m).0;
          block = y;
          is = is;
          over = awaited_over y is;
        }
  ]

-- a coroutine that has just been switched to goes on
pub landed-Ready :
    (fuel : ℕ) (s : State) (k : Place) (ps : List Ptr) (n : ℕ) (rest : List ℕ)
    → Switched ps n (k, rest) s
    → (S : Type 0) → Ends S (λ _ s'. Ready s') (go_on (suc fuel) k rest s)
unfolding go_on
landed-Ready fuel s in_user ps n rest h S = (ps, h.inv)
landed-Ready fuel s (in_wait c) ps n rest h S =
    let (ne, mine) =
      Chain-block s.heap s.head s.current ps h.inv.listed.chain h.inv.listed.current_in in
    let (me, is_me) = mine in
    let seen = view-current s (in_wait c) me is_me in
    let runs : me.status ≡ Status.running = ground (arith, h.runs) in
    let lives : me.status ≢ Status.dead = ground arith in
    let w = awaited s c ps h.inv me is_me lives ne in
    let over = w.over runs in
    rw (load-ok s c w.block w.not_null w.is, over)
      (removed-Ready s c ps h.inv me w.block is_me w.is over lives S)
landed-Ready fuel s in_wrapper ps n rest h S =
    let (ne, mine) =
      Chain-block s.heap s.head s.current ps h.inv.listed.chain h.inv.listed.current_in in
    let (me, is_me) = mine in
    let seen = view-current s in_wrapper me is_me in
    ground (arith, h.inv.sound.no_wrapper s.current, h.runs)

-- the loop of `co_wait`, from its first test on
pub waiting-Ready :
    (fuel : ℕ) (s : State) (c : Ptr) (ps : List Ptr) (randoms : List ℕ) (me : Co)
    → Inv s (in_wait c) ps
    → s.heap s.current ≡ some me
    → me.status ≢ Status.dead
    → length randoms ≤ fuel
    → Ends Unit (λ _ s'. Ready s') (go_on (suc fuel) (in_wait c) randoms s)
unfolding go_on
waiting-Ready fuel s c ps randoms me inv is_me lives le =
    let (ne, mine) =
      Chain-block s.heap s.head s.current ps inv.listed.chain inv.listed.current_in in
    let w = awaited s c ps inv me is_me lives ne in
    rw (load-ok s c w.block w.not_null w.is) (elim (Bool-cases (is_dead w.block.status)) [
      | inl over ↦
          rw over (removed-Ready s c ps inv me w.block is_me w.is (ground arith) lives Unit)
      | inr alive ↦ rw alive (
          Ends-bind Unit (Switched ps (length randoms)) _ (switch_from (in_wait c) randoms s) _
            (Ends-forget _ _ (switch_from (in_wait c) randoms s)
              (switch_from-Switched s (in_wait c) ps randoms inv))
            λ pick s' h. landed fuel s' pick h le)
    ])
  where
    landed :
        (n : ℕ) (s' : State) (pick : Place × List ℕ)
        → Switched ps (length randoms) pick s'
        → length randoms ≤ n
        → Ends Unit (λ _ s''. Ready s'') (go_on n pick.0 pick.1 s')
    landed zero s' pick h le' = absurd (omega (arith, h.fewer))
    landed (suc n) s' pick h le' = landed-Ready n s' pick.0 ps (length randoms) pick.1 h Unit

-- In a sound system `co_yield` meets no failed `assert` and no bad pointer. When it switches, a
-- coroutine is current in a sound system and runs its own code; it fails to switch only when each of
-- the random numbers that it was given chooses a coroutine that is neither new nor running.
pub co_yield-Ready :
    (s : State) (ps : List Ptr) (randoms : List ℕ)
    → Inv s in_user ps
    → Ends (NoneReady s ps randoms) (λ _ s'. Ready s') (co_yield randoms s)
unfolding co_yield
co_yield-Ready s ps randoms inv =
    Ends-bind (NoneReady s ps randoms) (Switched ps (length randoms)) _
      (switch_from in_user randoms s) _ (switch_from-Switched s in_user ps randoms inv)
      λ pick s' h.
        let e : length pick.1 + 1 ≡ suc (length pick.1) = omega arith in
        rw e (landed-Ready (length pick.1) s' pick.0 ps (length randoms) pick.1 h _)
