-- ===== src/Libco/Reach.antt =====
-- The programs that use M2-libco/co.c: any sequence of calls by the coroutines' functions, each by
-- the current coroutine.
use nju_os_workbench.Base.{ℕ, ◌≡◌, ◌≢◌, none, some, List, [], ◌∷◌, subst, arith}
use nju_os_workbench.Libco.Store.{Ptr, null, Status, Co, State, Run, ok, pure, ◌>>◌, in_user}
use nju_os_workbench.Libco.Invariant.{Ends, Ends-forget, Inv}
use nju_os_workbench.Libco.Actions.{Ready, co_yield-Ready}
use nju_os_workbench.Libco.Wait.{co_wait-Ready}
use nju_os_workbench.Libco.Finish.{finish-Ready}
use nju_os_workbench.Libco.Start.{co_start-Ready, init-Ready}
use nju_os_workbench.Libco.{co_start, co_yield, co_wait, finish, init}

-- what the current coroutine does next: a call, with what `malloc` and `rand` return to it, or the
-- return of its function
pub data Action : Type 0 where
  start : (fresh name func arg : ℕ) → Action
  yield_on : List ℕ → Action
  wait_for : Ptr → List ℕ → Action
  return_with : List ℕ → Action

unfoldable pub perform : Action → State → Run (Unit {0})
unfolding co_start co_yield co_wait finish
perform (start fresh name func arg) = co_start fresh name func arg >> pure tt
perform (yield_on randoms) = co_yield randoms
perform (wait_for co randoms) = co_wait co randoms
perform (return_with randoms) = finish randoms

-- What the library asks of its user: `malloc` returns an unused block, and a coroutine waits for
-- another one, which nobody else has waited for and which does not wait itself.
abbrev pub Allowed : Action → State → Type 0
Allowed (start fresh name func arg) s = (fresh ≢ null) × (s.heap fresh ≡ none)
Allowed (yield_on randoms) s = Unit
Allowed (wait_for co randoms) s =
    (co ≢ s.current)
    × ((y : Co) × (s.heap co ≡ some y) × (y.status ≢ Status.waiting) × (y.waiter ≡ null))
Allowed (return_with randoms) s = Unit

-- the states between two actions
pub data Reaches (first : State) : State → Type 0 where
  begins : Reaches first first
  performs :
      {s s' : State} (a : Action)
      → Reaches first s
      → Allowed a s
      → perform a s ≡ ok tt s'
      → Reaches first s'

perform-Ready :
    (a : Action) (s : State) → Ready s → Allowed a s → Ends Unit (λ _ s'. Ready s') (perform a s)
unfolding perform
perform-Ready (start fresh name func arg) s (ps, inv) (ne, unused) =
    let (s', run, kept) = co_start-Ready s ps fresh name func arg inv ne unused in rw run (_, kept)
perform-Ready (yield_on randoms) s (ps, inv) allowed =
    Ends-forget _ _ (co_yield randoms s) (co_yield-Ready s ps randoms inv)
perform-Ready (wait_for co randoms) s ready (apart, (y, is_y, idle, alone)) =
    co_wait-Ready s co y randoms ready is_y apart idle alone
perform-Ready (return_with randoms) s ready allowed = finish-Ready s randoms ready

Reaches-Ready : (first s : State) → Ready first → Reaches first s → Ready s
Reaches-Ready first s ready begins = ready
Reaches-Ready first s ready (performs a r allowed run) =
    let before = Reaches-Ready first _ ready r in rw run at (perform-Ready a _ before allowed)

-- After `init` on an empty heap, whose block holds 0 in the fields that it does not write, and any
-- sequence of allowed actions that have ended, no allowed action meets a failed `assert` or a bad
-- pointer: it leaves a coroutine current in a sound system, or it uses up the random numbers.
pub Reaches-safe :
    (empty first s : State) (p : Ptr) (junk : Co) (a : Action)
    → ((q : Ptr) → empty.heap q ≡ none)
    → p ≢ null
    → junk.next ≡ null
    → junk.waiter ≡ null
    → init p junk empty ≡ ok tt first
    → Reaches first s
    → Allowed a s
    → Ends Unit (λ _ s'. Ready s') (perform a s)
Reaches-safe empty first s p junk a none_used ne last alone run reaches allowed =
    let (s', run', inv) = init-Ready empty p junk none_used ne last alone in
    let same : s' ≡ first = ground arith in
    perform-Ready a s
      (Reaches-Ready first s (_, subst (λ t. Inv t in_user (p ∷ [])) same inv) reaches) allowed
