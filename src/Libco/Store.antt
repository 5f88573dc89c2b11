-- ===== src/Libco/Store.antt =====
-- The heap of M2-libco/co.c: `struct co` blocks at addresses, the globals, and runs that may fault.
use nju_os_workbench.Base.{ℕ, Bool, true, false, Option, none, some, ◌==◌, if◌then◌else◌}

abbrev pub Ptr : Type 0
Ptr = ℕ

abbrev pub null : Ptr
null = 0

-- `enum co_status`
pub data Status : Type 0 where
  new : Status
  running : Status
  waiting : Status
  dead : Status

-- Where a coroutine goes on when its `co_yield` returns: in the code of its own function, in the
-- loop of `co_wait` on a coroutine, or behind the last call of `wrapper`. It stands for the saved
-- registers and the stack (`context`, `stack`, `stack_base`).
pub data Place : Type 0 where
  in_user : Place
  in_wait : Ptr → Place
  in_wrapper : Place

-- `struct co`
pub record Co : Type 0 where
  pub name : ℕ
  pub func : ℕ
  pub arg : ℕ
  pub status : Status
  pub waiter : Ptr
  pub context : Place
  pub next : Ptr

-- what a coroutine is about, beside its place in the list and its arguments
pub record Task : Type 0 where
  pub status : Status
  pub context : Place
  pub waiter : Ptr

abbrev pub task : Option Co → Option Task
task none = none
task (some c) = some (record { status = c.status; context = c.context; waiter = c.waiter })

abbrev pub Heap : Type 0
Heap = Ptr → Option Co

unfoldable pub write : Heap → Ptr → Option Co → Heap
write h p c q = if p == q then c else h q

-- the globals of co.c and the heap
pub record State : Type 0 where
  pub co_num : ℕ
  pub current : Ptr
  pub head : Ptr
  pub heap : Heap

-- A run ends in a result and a state, in a failed `assert`, in a use of a null or dangling pointer,
-- or it uses up the numbers that `rand` was to return.
pub data Run (A : Type 0) : Type 0 where
  ok : A → State → Run A
  abort : Run A
  fault : Run A
  spin : Run A

abbrev pub Cmd : Type 0 → Type 0
Cmd A = State → Run A

abbrev pub pure : {A : Type 0} → A → Cmd A
pure = ok

abbrev pub and_then : {A B : Type 0} → Run A → (A → Cmd B) → Run B
and_then (ok a s) k = k a s
and_then abort k = abort
and_then fault k = fault
and_then spin k = spin

infixl 5 ◌>>=◌ ◌>>◌
abbrev pub ◌>>=◌ : {A B : Type 0} → Cmd A → (A → Cmd B) → Cmd B
m >>= k = λ s. and_then (m s) k

abbrev pub ◌>>◌ : {A B : Type 0} → Cmd A → Cmd B → Cmd B
m >> n = m >>= λ _. n

-- `assert`
abbrev pub assert : Bool → Cmd (Unit {0})
assert true = ok tt
assert false = λ _. abort

abbrev pub state : Cmd State
state s = ok s s

abbrev pub put_block : Ptr → Option Co → Cmd (Unit {0})
put_block p c s = ok tt (record s { heap = write s.heap p c })

-- `*p`
unfoldable pub load : Ptr → Cmd Co
load p s = if p == null then fault else elim (s.heap p) [ none ↦ fault | some c ↦ ok c s ]

unfoldable pub set_next : Ptr → Ptr → Cmd (Unit {0})
unfolding load
set_next p q = do c ← load p; put_block p (some (record c { next = q }))

unfoldable pub set_status : Ptr → Status → Cmd (Unit {0})
unfolding load
set_status p st = do c ← load p; put_block p (some (record c { status = st }))

unfoldable pub set_waiter : Ptr → Ptr → Cmd (Unit {0})
unfolding load
set_waiter p w = do c ← load p; put_block p (some (record c { waiter = w }))

unfoldable pub set_context : Ptr → Place → Cmd (Unit {0})
unfolding load
set_context p k = do c ← load p; put_block p (some (record c { context = k }))

abbrev pub set_current : Ptr → Cmd (Unit {0})
set_current p s = ok tt (record s { current = p })

abbrev pub set_head : Ptr → Cmd (Unit {0})
set_head p s = ok tt (record s { head = p })

abbrev pub set_co_num : ℕ → Cmd (Unit {0})
set_co_num n s = ok tt (record s { co_num = n })

-- `free(p)`
abbrev pub free : Ptr → Cmd (Unit {0})
free p = put_block p none

abbrev pub is_new : Status → Bool
is_new new = true
is_new _ = false

abbrev pub is_running : Status → Bool
is_running running = true
is_running _ = false

abbrev pub is_waiting : Status → Bool
is_waiting waiting = true
is_waiting _ = false

abbrev pub is_dead : Status → Bool
is_dead dead = true
is_dead _ = false
