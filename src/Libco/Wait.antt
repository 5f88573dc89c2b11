-- ===== src/Libco/Wait.antt =====
-- `co_wait` of M2-libco/co.c.
use nju_os_workbench.Base.{
  ℕ, suc, ◌+◌, ◌≡◌, ◌≢◌, refl, some, true, false, List, length, arith, ◌==◌,
}
use nju_os_workbench.Libco.Store.{
  Ptr, null, Status, in_user, in_wait, Co, task, State, ok, write, is_waiting, is_dead,
}
use nju_os_workbench.Libco.Chain.{Chain-block, Chain-write, load-ok, Chain}
use nju_os_workbench.Libco.Unlink.{remove_co-without}
use nju_os_workbench.Libco.Sound.{status_at, Sound-wait}
use nju_os_workbench.Libco.Invariant.{Listed, view, Inv, Ends, Sound-ext}
use nju_os_workbench.Libco.Actions.{member_of_block, Ready, waiting-Ready}
use nju_os_workbench.Libco.{co_wait, go_on}

module _ (s : State) (c : Ptr) (ps : List Ptr) (me y : Co) (is_me : s.heap s.current ≡ some me)
    (is_y : s.heap c ≡ some y) (apart : c ≢ s.current) where
  -- the current coroutine as a waiting one, and `c` with its waiter
  abbrev marked : State
  marked = record s { heap = write s.heap s.current (some (record me { status = Status.waiting })) }

  abbrev registered : State
  registered = record s { heap = write marked.heap c (some (record y { waiter = s.current })) }

  marked-block : marked.heap c ≡ some y
  unfolding write
  marked-block = ground arith

  registered-me : registered.heap s.current ≡ some (record me { status = Status.waiting })
  unfolding write
  registered-me = ground arith

  registered-y : registered.heap c ≡ some (record y { waiter = s.current })
  unfolding write
  registered-y = ground arith

  registered-Chain : Chain s.heap s.head ps → Chain registered.heap s.head ps
  registered-Chain ch =
      Chain-write marked.heap s.head c ps y _
        (Chain-write s.heap s.head s.current ps me _ ch is_me refl) marked-block refl

  registered-Inv :
      Inv s in_user ps → y.status ≢ Status.waiting → y.waiter ≡ null → Inv registered (in_wait c) ps
  unfolding view write
  registered-Inv inv idle free = record {
    listed = record {
      chain = registered-Chain inv.listed.chain;
      count = inv.listed.count;
      current_in = inv.listed.current_in;
      only = λ q out. ground (arith, inv.listed.only q);
    };
    sound =
        Sound-ext _ _
          (Sound-wait (view s in_user) s.current c
            (record { status = me.status; context = in_user; waiter = me.waiter })
            (record { status = y.status; context = y.context; waiter = y.waiter }) inv.sound
            (ground arith) refl (ground (arith, inv.alive)) (ground arith) apart idle free)
          (λ q. ground arith);
    begun = ground arith;
    alive = λ e. ground arith;
  }

-- In a sound system, `co_wait` on another coroutine that is not itself waiting and that nobody has
-- waited on meets no failed `assert` and no bad pointer: when it returns, or when another coroutine
-- runs first, the system is sound again, or the random numbers have run out.
pub co_wait-Ready :
    (s : State) (c : Ptr) (y : Co) (randoms : List ℕ)
    → Ready s
    → s.heap c ≡ some y
    → c ≢ s.current
    → y.status ≢ Status.waiting
    → y.waiter ≡ null
    → Ends Unit (λ _ s'. Ready s') (co_wait c randoms s)
unfolding co_wait
co_wait-Ready s c y randoms (ps, inv) is_y apart idle free =
    let (ne, mine) =
      Chain-block s.heap s.head s.current ps inv.listed.chain inv.listed.current_in in
    let (me, is_me) = mine in
    let (nec, _) =
      Chain-block s.heap s.head c ps inv.listed.chain (member_of_block s ps c y inv.listed is_y) in
    let not_null : (c == null) ≡ false = ground arith in
    let awake : is_waiting y.status ≡ false = ground arith in
    let e : length randoms + 1 ≡ suc (length randoms) = omega arith in
    let m = marked s c ps me y is_me is_y apart in
    rw
      (
        not_null,
        load-ok s c y nec is_y,
        awake,
        load-ok s s.current me ne is_me,
        load-ok m c y nec (marked-block s c ps me y is_me is_y apart),
        e,
      )
      (waiting-Ready (length randoms) (registered s c ps me y is_me is_y apart) c ps randoms _
        (registered-Inv s c ps me y is_me is_y apart inv idle free)
        (registered-me s c ps me y is_me is_y apart) (ground arith) (omega arith))

-- `co_wait` on a coroutine that is already dead returns at once, and leaves its caller, which is
-- still current, with the status CO_WAITING.
pub co_wait-dead :
    (s : State) (c : Ptr) (ps : List Ptr) (y : Co) (randoms : List ℕ)
    → Listed s ps
    → s.heap c ≡ some y
    → c ≢ s.current
    → y.status ≡ Status.dead
    → (s' : State) × (co_wait c randoms s ≡ ok tt s')
      × (s'.current ≡ s.current)
      × (status_at (task (s'.heap s'.current)) ≡ some Status.waiting)
unfolding co_wait go_on
co_wait-dead s c ps y randoms l is_y apart over =
    let (ne, mine) = Chain-block s.heap s.head s.current ps l.chain l.current_in in
    let (me, is_me) = mine in
    let m = member_of_block s ps c y l is_y in
    let (nec, _) = Chain-block s.heap s.head c ps l.chain m in
    let not_null : (c == null) ≡ false = ground arith in
    let gone : is_dead y.status ≡ true = ground arith in
    let awake : is_waiting y.status ≡ false = ground arith in
    let e : length randoms + 1 ≡ suc (length randoms) = omega arith in
    let set = registered s c ps me y is_me is_y apart in
    let (s', run, _, _, cur, tasks) =
      remove_co-without c ps set (registered-Chain s c ps me y is_me is_y apart l.chain) l.count m
        (ground arith) in
    (
      s',
      rw
          (
            not_null,
            load-ok s c y nec is_y,
            awake,
            load-ok s s.current me ne is_me,
            load-ok (marked s c ps me y is_me is_y apart) c y nec
                (marked-block s c ps me y is_me is_y apart),
            e,
            load-ok set c (record y { waiter = s.current }) nec
                (registered-y s c ps me y is_me is_y apart),
            gone,
          )
          run,
      cur,
      ground (arith, tasks s.current, registered-me s c ps me y is_me is_y apart),
    )
