-- ===== src/Libco/Invariant.antt =====
-- The invariant of the coroutine system of M2-libco/co.c, and what a run without a failed `assert`
-- and without a bad pointer is.
use nju_os_workbench.Base.{
  ◌≡◌, ◌≢◌, true, false, Option, none, some, List, length, ◌==◌, if◌then◌else◌, subst, sym, fun_ext,
}
use nju_os_workbench.Libco.Store.{
  Ptr, Status, Place, in_wrapper, Task, task, State, Run, ok, abort, fault, spin, Cmd, and_then,
}
use nju_os_workbench.Libco.Chain.{has, Chain}
use nju_os_workbench.Libco.Sound.{Tasks, Sound, status_at}

-- The blocks of the heap are those of the list `ps`, which `co_num` counts, and the current
-- coroutine is one of them.
pub record Listed (s : State) (ps : List Ptr) : Type 0 where
  pub chain : Chain s.heap s.head ps
  pub count : s.co_num ≡ length ps
  pub current_in : has s.current ps ≡ true
  pub only : (q : Ptr) → has q ps ≡ false → s.heap q ≡ none

abbrev pub at_place : Place → Option Task → Option Task
at_place k none = none
at_place k (some x) = some (record x { context = k })

-- the tasks, where the current coroutine stands at `place`
unfoldable pub view : State → Place → Tasks
view s place q = if q == s.current then at_place place (task (s.heap q)) else task (s.heap q)

-- `place` is where the current coroutine stands: `in_user` between two calls of the library.
pub record Inv (s : State) (place : Place) (ps : List Ptr) : Type 0 where
  pub listed : Listed s ps
  pub sound : Sound (view s place)
  pub begun : status_at (task (s.heap s.current)) ≢ some Status.new
  pub alive : status_at (task (s.heap s.current)) ≡ some Status.dead → place ≡ in_wrapper

-- The run ends without a failed `assert` and without a bad pointer; `S` holds if it uses up the
-- random numbers, and `P` of its result if it does not.
abbrev pub Ends : {A : Type 0} → (S : Type 0) → (A → State → Type 0) → Run A → Type 0
Ends S P (ok a s) = P a s
Ends S P abort = ⊥
Ends S P fault = ⊥
Ends S P spin = S

pub Ends-bind :
    {A B : Type 0} (S : Type 0) (P : A → State → Type 0) (Q : B → State → Type 0) (r : Run A)
    (k : A → Cmd B)
    → Ends S P r
    → ((a : A) (s : State) → P a s → Ends S Q (k a s))
    → Ends S Q (and_then r k)
Ends-bind S P Q (ok a s) k h next = next a s h
Ends-bind S P Q abort k h next = h
Ends-bind S P Q fault k h next = h
Ends-bind S P Q spin k h next = h

pub Ends-mono :
    {A : Type 0} (S T : Type 0) (P Q : A → State → Type 0) (r : Run A)
    → Ends S P r
    → (S → T)
    → ((a : A) (s : State) → P a s → Q a s)
    → Ends T Q r
Ends-mono S T P Q (ok a s) h out weaken = weaken a s h
Ends-mono S T P Q abort h out weaken = h
Ends-mono S T P Q fault h out weaken = h
Ends-mono S T P Q spin h out weaken = out h

-- forgets what the random numbers were when they run out
pub Ends-forget :
    {A : Type 0} (S : Type 0) (P : A → State → Type 0) (r : Run A) → Ends S P r → Ends Unit P r
Ends-forget S P r h = Ends-mono S Unit P P r h (λ _. tt) (λ a s p. p)

pub Sound-ext : (t g : Tasks) → Sound t → ((q : Ptr) → g q ≡ t q) → Sound g
Sound-ext t g s e = subst Sound (sym (fun_ext e)) s
