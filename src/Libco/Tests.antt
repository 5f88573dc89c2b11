-- ===== src/Libco/Tests.antt =====
-- The coroutines of M2-libco/co.c on small systems: the main coroutine at address 8, and another at
-- address 16.
use nju_os_workbench.Libco.Store.{
  Run, abort, fault, spin, load, write, set_next, Ptr, null, Status, Place, in_user, in_wrapper, Co,
  State, ok, task,
}
use nju_os_workbench.Libco.{insert_co, co_start, co_yield, co_wait, finish, init, remove_co}
use nju_os_workbench.Libco.Reach.{Action, start, wait_for, perform, begins, performs, Reaches-safe}
use nju_os_workbench.Base.{
  ◌≡◌, refl, true, none, some, List, [], ◌∷◌, arith, ◌==◌, if◌then◌else◌, length,
}
use nju_os_workbench.Libco.Chain.{has, Chain, without, insert_after}
use nju_os_workbench.Libco.Sound.{status_at}
use nju_os_workbench.Libco.Invariant.{Listed, view, Inv, Ends}
use nju_os_workbench.Libco.Unlink.{remove_co-without}
use nju_os_workbench.Libco.Switch.{NoneReady}
use nju_os_workbench.Libco.Actions.{Ready, co_yield-Ready}
use nju_os_workbench.Libco.Wait.{co_wait-Ready, co_wait-dead}
use nju_os_workbench.Libco.Finish.{finish-Ready}
use nju_os_workbench.Libco.Start.{co_start-Ready}

abbrev block : Status → Place → Ptr → Co
block status context next = record {
  name = 1;
  func = 2;
  arg = 3;
  status = status;
  waiter = null;
  context = context;
  next = next;
}

abbrev empty : State
empty = record { co_num = 0; current = null; head = null; heap = λ q. none }

-- a system of two coroutines, the main one running
abbrev two : (current : Ptr) → Status → Place → State
two current status context = record {
  co_num = 2;
  current = current;
  head = 8;
  heap = λ q.
      if q == 8
      then some (block Status.running in_user 16)
      else if q == 16
      then some (block status context null)
      else none;
}

-- the list of the two
abbrev both : List Ptr
both = 8 ∷ 16 ∷ []

both-Chain :
    (current : Ptr) (status : Status) (context : Place)
    → Chain (two current status context).heap 8 both
both-Chain current status context = (
  refl,
  (λ e. omega (arith, e)),
  refl,
  (
    block Status.running in_user 16,
    refl,
    (refl, (λ e. omega (arith, e)), refl, (block status context null, refl, refl)),
  ),
)

two-Listed :
    (current : Ptr) (status : Status) (context : Place)
    → has current both ≡ true
    → Listed (two current status context) both
two-Listed current status context m = record {
  chain = both-Chain current status context;
  count = refl;
  current_in = m;
  only = λ q out. ground arith;
}

abbrev begun : State
begun = two 8 Status.new in_user

begun-Inv : Inv begun in_user both
unfolding view
begun-Inv = record {
  listed = two-Listed 8 Status.new in_user refl;
  sound = record {
    no_null = refl;
    no_wrapper = λ q e. ground arith;
    fresh = λ q e. ground arith;
    target = λ q c e nd. ground arith;
    woken = λ q c e r. ground arith;
    waits = λ d nd nz. ground arith;
  };
  begun = ground arith;
  alive = λ e. ground arith;
}

abbrev working : State
working = two 16 Status.running in_user

working-Inv : Inv working in_user both
unfolding view
working-Inv = record {
  listed = two-Listed 16 Status.running in_user refl;
  sound = record {
    no_null = refl;
    no_wrapper = λ q e. ground arith;
    fresh = λ q e. ground arith;
    target = λ q c e nd. ground arith;
    woken = λ q c e r. ground arith;
    waits = λ d nd nz. ground arith;
  };
  begun = ground arith;
  alive = λ e. ground arith;
}

abbrev over : State
over = two 8 Status.dead in_wrapper

co_yield-Ready_example :
    Ends (NoneReady begun both (5 ∷ 2 ∷ [])) (λ _ s'. Ready s') (co_yield (5 ∷ 2 ∷ []) begun)
co_yield-Ready_example = co_yield-Ready begun both (5 ∷ 2 ∷ []) begun-Inv

co_wait-Ready_example : Ends Unit (λ _ s'. Ready s') (co_wait 16 (5 ∷ 2 ∷ []) begun)
co_wait-Ready_example =
    co_wait-Ready begun 16 (block Status.new in_user null) (5 ∷ 2 ∷ []) (both, begun-Inv) refl
      (λ e. omega (arith, e)) (ground arith) refl

finish-Ready_example : Ends Unit (λ _ s'. Ready s') (finish (5 ∷ 2 ∷ []) working)
finish-Ready_example = finish-Ready working (5 ∷ 2 ∷ []) (both, working-Inv)

co_start-Ready_example :
    (s' : State) × (co_start 24 4 5 6 begun ≡ ok 24 s') × Inv s' in_user (insert_after 8 24 both)
co_start-Ready_example = co_start-Ready begun both 24 4 5 6 begun-Inv (λ e. omega (arith, e)) refl

remove_co-without_example :
    (s' : State) × (remove_co 16 over ≡ ok tt s')
    × Chain s'.heap s'.head (without 16 both)
    × (s'.co_num ≡ length (without 16 both))
    × (s'.current ≡ 8)
    × ((q : Ptr) → task (s'.heap q) ≡ (if q == 16 then none else task (over.heap q)))
remove_co-without_example =
    remove_co-without 16 both over (both-Chain 8 Status.dead in_wrapper) refl refl
      (λ e. omega (arith, e))

co_wait-dead_example :
    (s' : State) × (co_wait 16 [] over ≡ ok tt s')
    × (s'.current ≡ 8)
    × (status_at (task (s'.heap s'.current)) ≡ some Status.waiting)
co_wait-dead_example =
    co_wait-dead over 16 both (block Status.dead in_wrapper null) []
      (two-Listed 8 Status.dead in_wrapper refl) refl (λ e. omega (arith, e)) refl

-- the state in which a run ends
abbrev result : Run (Unit {0}) → State
result (ok a s) = s
result abort = empty
result fault = empty
result spin = empty

abbrev initialised : State
initialised = result (init 8 (block Status.dead in_wrapper null) empty)

abbrev begin_worker : Action
begin_worker = start 16 4 5 6

abbrev with_worker : State
with_worker = result (perform begin_worker initialised)

Reaches-safe_example : Ends Unit (λ _ s'. Ready s') (perform (wait_for 16 (5 ∷ 2 ∷ [])) with_worker)
unfolding init perform co_start insert_co load write set_next
Reaches-safe_example =
    Reaches-safe empty initialised with_worker 8 (block Status.dead in_wrapper null)
      (wait_for 16 (5 ∷ 2 ∷ [])) (λ q. refl) (λ e. omega (arith, e)) refl refl refl
      (performs begin_worker begins ((λ e. omega (arith, e)), refl) refl)
      ((λ e. omega (arith, e)), (_, refl, ground arith, refl))
