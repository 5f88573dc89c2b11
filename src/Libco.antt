-- ===== src/Libco.antt =====
-- The coroutine library M2-libco/co.c. The code of a coroutine's own function is outside; what it
-- can do is call the library or return, so the system moves by those actions of the current
-- coroutine. `rand` is outside too: an action is given the list of the numbers that it returns.
pub mod Store
pub mod Chain
pub mod Unlink
pub mod Sound
pub mod Invariant
pub mod Switch
pub mod Actions
pub mod Wait
pub mod Finish
pub mod Start
pub mod Reach
mod Tests
use nju_os_workbench.Base.{
  ℕ, zero, suc, ◌+◌, ◌-◌, ◌%◌, Bool, true, false, not, ◌||◌, Option, none, some, List, [], ◌∷◌,
  ◌==◌, ltb, if◌then◌else◌, length,
}
use Store.{
  Ptr, null, Status, Place, in_user, in_wait, in_wrapper, Co, State, Run, ok, fault, spin, Cmd,
  pure, ◌>>=◌, ◌>>◌, assert, state, put_block, load, set_next, set_status, set_waiter, set_context,
  set_current, set_head, set_co_num, free, is_new, is_running, is_waiting, is_dead,
}

-- in behind `current`
unfoldable pub insert_co : Ptr → Cmd (Unit {0})
unfolding set_next
insert_co co = do
  s ← state
  if s.current == null
      then (do set_current co; set_next co null)
      else (do c ← load s.current; set_next s.current co; set_next co c.next)
  set_co_num (s.co_num + 1)

-- the walk of `remove_co`: `prev` is null while `temp` is the head
unfoldable pub unlink : (fuel : ℕ) → (co prev temp : Ptr) → Cmd (Unit {0})
unfolding load set_next
unlink zero co prev temp = λ _. spin
unlink (suc fuel) co prev temp = if temp == null then pure tt else do
  c ← load temp
  if temp == co
      then (if prev == null then set_head c.next else set_next prev c.next)
      else unlink fuel co temp c.next

unfoldable pub remove_co : Ptr → Cmd (Unit {0})
unfolding unlink
remove_co co = do
  s ← state
  assert (not (s.current == co))
  assert (ltb 0 s.co_num)
  unlink (s.co_num + 1) co null s.head
  free co
  s' ← state
  set_co_num (s'.co_num - 1)

-- `while (num--) temp = temp->next;`
unfoldable pub walk : ℕ → Ptr → Cmd Ptr
unfolding load
walk zero temp = pure temp
walk (suc num) temp = do c ← load temp; walk num c.next

-- `random` is what `rand` returns
unfoldable pub random_select_co : ℕ → Cmd Ptr
unfolding walk
random_select_co random = do s ← state; assert (ltb 0 s.co_num); walk (random % s.co_num) s.head

-- the loop of `co_yield`; it returns the choice and the numbers that are left
unfoldable pub select_ready : List ℕ → Cmd (Ptr × List ℕ)
unfolding random_select_co load
select_ready [] = λ _. spin
select_ready (random ∷ rest) = do
  choice ← random_select_co random
  c ← load choice
  if is_new c.status || is_running c.status then pure (choice, rest) else select_ready rest

-- `co_yield` up to the switch, called from `here`. It returns where the chosen coroutine goes on: a
-- new one at the start of its function, behind the first lines of `wrapper`.
unfoldable pub switch_from : Place → List ℕ → Cmd (Place × List ℕ)
unfolding select_ready load set_status set_context
switch_from here randoms = do
  (choice, rest) ← select_ready randoms
  s ← state
  assert (not (s.current == null))
  assert (not (choice == null))
  me ← load s.current
  assert (not (is_new me.status))
  set_context s.current here
  set_current choice
  c ← load choice
  if is_new c.status
      then (do set_status choice Status.running; pure (in_user, rest))
      else pure (c.context, rest)

-- From where a coroutine goes on to the next code of a function: the loop of `co_wait` yields until
-- its coroutine is dead and then removes it; nothing stands behind the last call of `wrapper`.
unfoldable pub go_on : (fuel : ℕ) → Place → List ℕ → Cmd (Unit {0})
unfolding load switch_from remove_co
go_on zero place randoms = λ _. spin
go_on (suc fuel) in_user randoms = pure tt
go_on (suc fuel) (in_wait co) randoms = do
  c ← load co
  if is_dead c.status
      then remove_co co
      else do (place, rest) ← switch_from (in_wait co) randoms; go_on fuel place rest
go_on (suc fuel) in_wrapper randoms = λ _. fault

-- `co_start`; `fresh` is what `malloc` returns
unfoldable pub co_start : (fresh name func arg : ℕ) → Cmd Ptr
unfolding insert_co
co_start fresh name func arg = do
  assert (not (fresh == null))
  put_block fresh (
      some (record {
        name = name;
        func = func;
        arg = arg;
        status = Status.new;
        waiter = null;
        context = in_user;
        next = null;
      }))
  insert_co fresh
  pure fresh

-- `co_yield`, up to the next code of some function
unfoldable pub co_yield : List ℕ → Cmd (Unit {0})
unfolding switch_from go_on
co_yield randoms = do
  (place, rest) ← switch_from in_user randoms
  go_on (length rest + 1) place rest

unfoldable pub co_wait : Ptr → List ℕ → Cmd (Unit {0})
unfolding load set_status set_waiter go_on
co_wait co randoms = do
  assert (not (co == null))
  c ← load co
  assert (not (is_waiting c.status))
  s ← state
  set_status s.current Status.waiting
  set_waiter co s.current
  go_on (length randoms + 1) (in_wait co) randoms

-- `wrapper` behind the return of the function
unfoldable pub finish : List ℕ → Cmd (Unit {0})
unfolding load set_status switch_from go_on
finish randoms = do
  s ← state
  set_status s.current Status.dead
  me ← load s.current
  if me.waiter == null then pure tt else set_status me.waiter Status.running
  (place, rest) ← switch_from in_wrapper randoms
  go_on (length rest + 1) place rest

-- `init`, where `malloc` returned `fresh` with these bytes in the fields that `init` does not set
unfoldable pub init : Ptr → Co → Cmd (Unit {0})
init fresh junk = do
  assert (not (fresh == null))
  put_block fresh (some (record junk { name = 0; status = Status.running }))
  set_current fresh
  set_head fresh
  set_co_num 1

-- `fini`: frees from `head` on
unfoldable pub fini : (fuel : ℕ) → (temp : Ptr) → Cmd (Unit {0})
unfolding load
fini zero temp = λ _. spin
fini (suc fuel) temp =
    if temp == null then pure tt else do c ← load temp; free temp; fini fuel c.next
