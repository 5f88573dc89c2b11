-- ===== src/Libco/Finish.antt =====
-- The end of a coroutine's function, in `wrapper` of M2-libco/co.c.
use nju_os_workbench.Libco.{finish, switch_from, go_on}
use nju_os_workbench.Libco.Store.{
  and_then, Ptr, null, Status, in_user, in_wrapper, Co, State, write,
}
use nju_os_workbench.Libco.Chain.{load-ok, Chain-block, Chain-write}
use nju_os_workbench.Libco.Actions.{Ready, landed-Ready}
use nju_os_workbench.Libco.Switch.{Switched, switch_from-Switched}
use nju_os_workbench.Libco.Invariant.{Ends, Ends-bind, view, Inv, Sound-ext, Ends-forget}
use nju_os_workbench.Base.{
  ℕ, Bool-cases, Option-cases, inl, inr, length, suc, ◌+◌, ◌≡◌, ◌≢◌, refl, some, List, arith, ◌==◌,
}
use nju_os_workbench.Libco.Sound.{Sound-finish_alone, Sound-finish_waiter}

module _ (s : State) (ps : List Ptr) (inv : Inv s in_user ps) (me : Co)
    (is_me : s.heap s.current ≡ some me) where
  -- the current coroutine, dead
  abbrev ended : State
  ended = record s { heap = write s.heap s.current (some (record me { status = Status.dead })) }

  ended-block : ended.heap s.current ≡ some (record me { status = Status.dead })
  unfolding write
  ended-block = ground arith

  not_dead : me.status ≢ Status.dead
  not_dead = ground (arith, inv.alive)

  ended-Inv : me.waiter ≡ null → Inv ended in_wrapper ps
  unfolding view write
  ended-Inv alone = record {
    listed = record {
      chain = Chain-write s.heap s.head s.current ps me _ inv.listed.chain is_me refl;
      count = inv.listed.count;
      current_in = inv.listed.current_in;
      only = λ q out. ground (arith, inv.listed.only q);
    };
    sound =
        Sound-ext _ _
          (Sound-finish_alone (view s in_user) s.current
            (record { status = me.status; context = in_user; waiter = me.waiter }) inv.sound
            (ground arith) refl not_dead alone)
          (λ q. ground arith);
    begun = ground arith;
    alive = λ e. refl;
  }

  module _ (y : Co) (waited : me.waiter ≢ null) (is_y : s.heap me.waiter ≡ some y)
      (apart : me.waiter ≢ s.current) where
    -- and its waiter, running
    abbrev woken : State
    woken = record ended {
      heap = write ended.heap me.waiter (some (record y { status = Status.running }));
    }

    ended-waiter : ended.heap me.waiter ≡ some y
    unfolding write
    ended-waiter = ground arith

    woken-Inv : Inv woken in_wrapper ps
    unfolding view write
    woken-Inv = record {
      listed = record {
        chain =
            Chain-write ended.heap s.head me.waiter ps y _
              (Chain-write s.heap s.head s.current ps me _ inv.listed.chain is_me refl) ended-waiter
              refl;
        count = inv.listed.count;
        current_in = inv.listed.current_in;
        only = λ q out. ground (arith, inv.listed.only q);
      };
      sound =
          Sound-ext _ _
            (Sound-finish_waiter (view s in_user) s.current
              (record { status = me.status; context = in_user; waiter = me.waiter })
              (record { status = y.status; context = y.context; waiter = y.waiter }) inv.sound
              (ground arith) refl not_dead waited (ground arith))
            (λ q. ground arith);
      begun = ground arith;
      alive = λ e. refl;
    }

-- the `co_yield` at the end of `wrapper`
leave-Ready :
    (s : State) (ps : List Ptr) (randoms : List ℕ)
    → Inv s in_wrapper ps
    → Ends Unit
        (λ _ s'. Ready s')
        (and_then
          (switch_from in_wrapper randoms s)
          (λ (place, rest). go_on (length rest + 1) place rest))
leave-Ready s ps randoms inv =
    Ends-bind Unit (Switched ps (length randoms)) _ (switch_from in_wrapper randoms s) _
      (Ends-forget _ _ (switch_from in_wrapper randoms s)
        (switch_from-Switched s in_wrapper ps randoms inv))
      λ pick s' h.
        let e : length pick.1 + 1 ≡ suc (length pick.1) = omega arith in
        rw e (landed-Ready (length pick.1) s' pick.0 ps (length randoms) pick.1 h Unit)

waiter-block :
    (s : State) (ps : List Ptr) (me : Co)
    → Inv s in_user ps
    → s.heap s.current ≡ some me
    → me.waiter ≢ null
    → (me.waiter ≢ s.current) × ((y : Co) × (s.heap me.waiter ≡ some y))
unfolding view
waiter-block s ps me inv is_me waited =
    let live : me.status ≢ Status.dead = not_dead s ps inv me is_me in
    let apart : me.waiter ≢ s.current = ground (arith, inv.sound.waits s.current) in
    (
      apart,
      elim (Option-cases (s.heap me.waiter)) [
        | inl gone ↦ absurd (ground (arith, inv.sound.waits s.current))
        | inr found ↦ found
      ],
    )

-- When the function of the current coroutine returns in a sound system, `wrapper` meets no failed
-- `assert` and no bad pointer: a coroutine is then current in a sound system and runs its own code,
-- or the random numbers have run out.
pub finish-Ready :
    (s : State) (randoms : List ℕ) → Ready s → Ends Unit (λ _ s'. Ready s') (finish randoms s)
unfolding finish
finish-Ready s randoms (ps, inv) =
    let (ne, mine) =
      Chain-block s.heap s.head s.current ps inv.listed.chain inv.listed.current_in in
    let (me, is_me) = mine in
    let e =
      load-ok (ended s ps inv me is_me) s.current (record me { status = Status.dead }) ne
        (ended-block s ps inv me is_me) in
    elim (Bool-cases (me.waiter == null)) [
      | inl alone ↦
          rw (load-ok s s.current me ne is_me, e, alone)
            (leave-Ready _ ps randoms (ended-Inv s ps inv me is_me (ground arith)))
      | inr waited ↦
          let (apart, found) = waiter-block s ps me inv is_me (ground arith) in
          let (y, is_y) = found in
          let wake =
            load-ok (ended s ps inv me is_me) me.waiter y (ground arith)
              (ended-waiter s ps inv me is_me y (ground arith) is_y apart) in
          rw (load-ok s s.current me ne is_me, e, waited, wake)
            (leave-Ready _ ps randoms (woken-Inv s ps inv me is_me y (ground arith) is_y apart))
    ]
