-- ===== src/Libco/Switch.antt =====
-- `co_yield` of M2-libco/co.c switches to a coroutine that can run, and keeps the invariant.
use nju_os_workbench.Base.{
  ℕ, suc, ◌<◌, ◌≡◌, refl, true, ◌||◌, some, List, [], ◌∷◌, length, arith, Bool-cases, inl, inr,
  ◌==◌, false, get_elem?, ◌%◌,
}
use nju_os_workbench.Libco.Store.{
  Ptr, Status, Place, in_user, Co, task, State, write, is_new, is_running,
}
use nju_os_workbench.Libco.Chain.{has, Chain-block, Chain-write, length-pos, load-ok, set_status-ok}
use nju_os_workbench.Libco.Sound.{status_at, Sound-start}
use nju_os_workbench.Libco.Unlink.{random_select_co-nth}
use nju_os_workbench.Libco.Invariant.{Listed, view, Inv, Ends, Sound-ext, Ends-mono, Ends-bind}
use nju_os_workbench.Libco.{select_ready, switch_from, null}

-- the random numbers all choose a coroutine that can not run
abbrev pub NoneReady : State → List Ptr → List ℕ → Type 0
NoneReady s ps [] = Unit
NoneReady s ps (random ∷ rest) =
    ((q : Ptr) (c : Co)
      → get_elem? ps (random % length ps) ≡ some q
      → s.heap q ≡ some c
      → (is_new c.status || is_running c.status) ≡ false)
    × NoneReady s ps rest

-- what the loop of `co_yield` finds
pub record Chosen (s : State) (ps : List Ptr) (n : ℕ) (pick : Ptr × List ℕ) (s' : State)
    : Type 0 where
  pub unchanged : s' ≡ s
  pub member : has pick.0 ps ≡ true
  pub block : Co
  pub is : s.heap pick.0 ≡ some block
  pub ready : (is_new block.status || is_running block.status) ≡ true
  pub fewer : length pick.1 < n

Chosen-weaken :
    (s : State) (ps : List Ptr) (n : ℕ) (pick : Ptr × List ℕ) (s' : State)
    → Chosen s ps n pick s'
    → Chosen s ps (suc n) pick s'
Chosen-weaken s ps n pick s' h = record {
  unchanged = h.unchanged;
  member = h.member;
  block = h.block;
  is = h.is;
  ready = h.ready;
  fewer = omega (arith, h.fewer);
}

module _ (s : State) (ps : List Ptr) (l : Listed s ps) where
  select_ready-Chosen :
      (randoms : List ℕ)
      → Ends (NoneReady s ps randoms) (Chosen s ps (length randoms)) (select_ready randoms s)
  unfolding select_ready
  select_ready-Chosen [] = tt
  select_ready-Chosen (random ∷ rest) =
      let left = length-pos s.current ps l.current_in in
      let (q, run, nth, m) = random_select_co-nth random ps s l.chain l.count left in
      let (ne, block) = Chain-block s.heap s.head q ps l.chain m in
      let (c, is) = block in
      rw (run, load-ok s q c ne is)
        (elim (Bool-cases (is_new c.status || is_running c.status)) [
          | inl ready ↦ rw ready (record {
            unchanged = refl;
            member = m;
            block = c;
            is = is;
            ready = ready;
            fewer = omega arith;
          })
          | inr other ↦ rw other (
              Ends-mono (NoneReady s ps rest) _ (Chosen s ps (length rest)) _ _
                (select_ready-Chosen rest)
                (λ none_left. ((λ q' c' at is'. ground arith), none_left))
                (Chosen-weaken s ps (length rest)))
        ])

ready_runs :
    (st st' : Status)
    → st ≡ st'
    → (is_new st' || is_running st') ≡ true
    → is_new st ≡ false
    → st ≡ Status.running
ready_runs st st' same ready old = ground arith

-- After a switch the chosen coroutine is current and running, and goes on at `pick.0`.
pub record Switched (ps : List Ptr) (n : ℕ) (pick : Place × List ℕ) (s : State) : Type 0 where
  pub inv : Inv s pick.0 ps
  pub runs : status_at (task (s.heap s.current)) ≡ some Status.running
  pub fewer : length pick.1 < n

module _ (s : State) (here : Place) (ps : List Ptr) (inv : Inv s here ps) (me : Co)
    (is_me : s.heap s.current ≡ some me) (q : Ptr) (c : Co) (member : has q ps ≡ true) where
  -- the state once the current coroutine is saved and `q` is current
  abbrev saved : State
  saved = record s {
    current = q;
    heap = write s.heap s.current (some (record me { context = here }));
  }

  saved-Listed : Listed saved ps
  unfolding write
  saved-Listed = record {
    chain = Chain-write s.heap s.head s.current ps me _ inv.listed.chain is_me refl;
    count = inv.listed.count;
    current_in = member;
    only = λ r out. ground (arith, inv.listed.only r, inv.listed.current_in);
  }

  saved-status : (b : Co) → s.heap q ≡ some b → saved.heap q ≡ some c → c.status ≡ b.status
  unfolding write
  saved-status b is_b is = ground arith

  started-runs :
      status_at (task (write saved.heap q (some (record c { status = Status.running })) q))
      ≡ some Status.running
  unfolding write
  started-runs = ground arith

  saved-Inv : saved.heap q ≡ some c → c.status ≡ Status.running → Inv saved c.context ps
  unfolding view write
  saved-Inv is run = record {
    listed = saved-Listed;
    sound = Sound-ext (view s here) _ inv.sound (λ r. ground arith);
    begun = ground arith;
    alive = λ e. ground arith;
  }

  abbrev started : State
  started = record saved { heap = write saved.heap q (some (record c { status = Status.running })) }

  started-Inv : saved.heap q ≡ some c → c.status ≡ Status.new → Inv started in_user ps
  unfolding view write
  started-Inv is fresh = record {
    listed = record {
      chain = Chain-write saved.heap s.head q ps c _ saved-Listed.chain is refl;
      count = inv.listed.count;
      current_in = member;
      only = λ r out. ground (arith, saved-Listed.only r);
    };
    sound =
        Sound-ext _ _
          (Sound-start (view s here) q
            (record { status = c.status; context = c.context; waiter = c.waiter }) inv.sound
            (ground (arith, inv.begun)) fresh)
          (λ r. ground (arith, inv.begun));
    begun = ground arith;
    alive = λ e. ground arith;
  }

-- The switch of `co_yield` meets no failed `assert` and no bad pointer; if one of the random numbers
-- picks a coroutine that can run, it makes such a coroutine current and running and keeps the
-- invariant.
pub switch_from-Switched :
    (s : State) (here : Place) (ps : List Ptr) (randoms : List ℕ)
    → Inv s here ps
    → Ends (NoneReady s ps randoms) (Switched ps (length randoms)) (switch_from here randoms s)
unfolding switch_from
switch_from-Switched s here ps randoms inv =
    Ends-bind (NoneReady s ps randoms) (Chosen s ps (length randoms)) (Switched ps (length randoms))
      (select_ready randoms s) _ (select_ready-Chosen s ps inv.listed randoms)
      λ pick s' h. rw h.unchanged (
        let (ne, mine) =
          Chain-block s.heap s.head s.current ps inv.listed.chain inv.listed.current_in in
        let (me, is_me) = mine in
        let (neq, theirs) =
          Chain-block _ s.head pick.0 ps
            (saved-Listed s here ps inv me is_me pick.0 h.block h.member).chain h.member in
        let (c, is) = theirs in
        let set : State = saved s here ps inv me is_me pick.0 h.block h.member in
        let not_null : (s.current == null) ≡ false = ground arith in
        let not_null' : (pick.0 == null) ≡ false = ground arith in
        let old : is_new me.status ≡ false = ground (arith, inv.begun) in
        let same : c.status ≡ h.block.status =
          saved-status s here ps inv me is_me pick.0 c h.member h.block h.is is in
        rw
          (
            not_null,
            not_null',
            load-ok s s.current me ne is_me,
            old,
            load-ok s s.current me ne is_me,
            load-ok set pick.0 c neq is,
          )
          (elim (Bool-cases (is_new c.status)) [
            | inl fresh ↦
                rw (fresh, set_status-ok set pick.0 c neq is Status.running)
                  (record {
                    inv = started-Inv s here ps inv me is_me pick.0 c h.member is (ground arith);
                    runs = started-runs s here ps inv me is_me pick.0 c h.member;
                    fewer = h.fewer;
                  })
            | inr other ↦ rw other (record {
              inv =
                  saved-Inv s here ps inv me is_me pick.0 c h.member is
                    (ready_runs c.status h.block.status same h.ready other);
              runs = rw (is, ready_runs c.status h.block.status same h.ready other);
              fewer = h.fewer;
            })
          ]))
