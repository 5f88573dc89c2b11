-- ===== src/Libco/Sound.antt =====
-- What the statuses, the saved places and the `waiter` pointers of M2-libco/co.c say of one
-- another, and that it survives each change that the library makes.
use nju_os_workbench.Base.{◌≡◌, ◌≢◌, Option, none, some, arith, ◌==◌, if◌then◌else◌}
use nju_os_workbench.Libco.Store.{
  Ptr, null, Status, new, running, waiting, dead, Place, in_user, in_wait, in_wrapper, Task,
}

abbrev pub status_at : Option Task → Option Status
status_at none = none
status_at (some x) = some x.status

abbrev pub context_at : Option Task → Option Place
context_at none = none
context_at (some x) = some x.context

abbrev pub waiter_at : Option Task → Ptr
waiter_at none = null
waiter_at (some x) = x.waiter

-- The tasks by address.
abbrev pub Tasks : Type 0
Tasks = Ptr → Option Task

-- A coroutine in `co_wait` is the waiter of the one that it waits on, and may run again only when
-- that one is dead; the waiter of a coroutine that is not dead waits on it; and only a dead
-- coroutine stands behind the last call of `wrapper`.
pub record Sound (t : Tasks) : Type 0 where
  pub no_null : t null ≡ none
  pub no_wrapper : (p : Ptr) → context_at (t p) ≡ some in_wrapper → status_at (t p) ≡ some dead
  pub fresh : (p : Ptr) → status_at (t p) ≡ some new → context_at (t p) ≡ some in_user
  pub target :
      (p c : Ptr)
      → context_at (t p) ≡ some (in_wait c)
      → status_at (t p) ≢ some dead
      → waiter_at (t c) ≡ p
  pub woken :
      (p c : Ptr)
      → context_at (t p) ≡ some (in_wait c)
      → status_at (t p) ≡ some running
      → status_at (t c) ≡ some dead
  pub waits :
      (d : Ptr)
      → status_at (t d) ≢ some dead
      → waiter_at (t d) ≢ null
      → (status_at (t (waiter_at (t d))) ≡ some waiting)
        × (context_at (t (waiter_at (t d))) ≡ some (in_wait d))

abbrev pub at : Tasks → Ptr → Task → Tasks
at t p x q = if q == p then some x else t q

-- a new coroutine
pub Sound-spawn :
    (t : Tasks) (p : Ptr)
    → Sound t
    → p ≢ null
    → t p ≡ none
    → Sound (at t p (record { status = new; context = in_user; waiter = null }))
Sound-spawn t p s ne free = record {
  no_null = ground (arith, s.no_null);
  no_wrapper = λ q e. ground (arith, s.no_wrapper q);
  fresh = λ q e. ground (arith, s.fresh q);
  target = λ q c e ne'. ground (arith, s.target q c, s.no_null);
  woken = λ q c e r. ground (arith, s.woken q c);
  waits = λ d nd nw. ground (arith, s.waits d);
}

-- a new coroutine starts
pub Sound-start :
    (t : Tasks) (p : Ptr) (x : Task)
    → Sound t
    → t p ≡ some x
    → x.status ≡ new
    → Sound (at t p (record x { status = running; context = in_user }))
Sound-start t p x s is e = record {
  no_null = ground (arith, s.no_null);
  no_wrapper = λ q e'. ground (arith, s.no_wrapper q);
  fresh = λ q e'. ground (arith, s.fresh q);
  target = λ q c e' ne. ground (arith, s.target q c);
  woken = λ q c e' r. ground (arith, s.woken q c);
  waits = λ d nd nw. ground (arith, s.waits d);
}

-- `co_wait` of the coroutine `c` by `p`, before its loop
pub Sound-wait :
    (t : Tasks) (p c : Ptr) (x y : Task)
    → Sound t
    → t p ≡ some x
    → x.context ≡ in_user
    → x.status ≢ dead
    → t c ≡ some y
    → c ≢ p
    → y.status ≢ waiting
    → y.waiter ≡ null
    → Sound (
        at
          (at t p (record x { status = waiting; context = in_wait c }))
          c
          (record y { waiter = p }))
Sound-wait t p c x y s isp user alive isc ne nw free = record {
  no_null = ground (arith, s.no_null);
  no_wrapper = λ q e. ground (arith, s.no_wrapper q);
  fresh = λ q e. ground (arith, s.fresh q);
  target = λ q d e nd. ground (arith, s.target q d, s.no_null);
  woken = λ q d e r. ground (arith, s.woken q d, s.target q d, s.no_null);
  waits = λ d nd nz. ground (arith, s.waits d, s.no_null);
}

-- the dead coroutine `c` removed by its waiter `p`
pub Sound-remove :
    (t g : Tasks) (p c : Ptr) (x y : Task)
    → Sound t
    → t p ≡ some x
    → x.context ≡ in_wait c
    → x.status ≢ dead
    → t c ≡ some y
    → y.status ≡ dead
    → ((q : Ptr) → g q ≡ (if q == c then none else at t p (record x { context = in_user }) q))
    → Sound g
Sound-remove t g p c x y s isp k alive isc is_dead e = record {
  no_null = ground (arith, s.no_null, e null);
  no_wrapper = λ q h. ground (arith, s.no_wrapper q, e q);
  fresh = λ q h. ground (arith, s.fresh q, e q);
  target = λ q d h nd. ground (arith, s.target q d, s.target p c, e q, e d);
  woken = λ q d h r. ground (arith, s.woken q d, s.target q d, s.target p c, e q, e d);
  waits = λ d nd nz. ground (arith, s.waits d, s.no_null, e d, e (waiter_at (t d)));
}

-- The function of `p` returns, and nobody waits on it.
pub Sound-finish_alone :
    (t : Tasks) (p : Ptr) (x : Task)
    → Sound t
    → t p ≡ some x
    → x.context ≡ in_user
    → x.status ≢ dead
    → x.waiter ≡ null
    → Sound (at t p (record x { status = dead; context = in_wrapper }))
Sound-finish_alone t p x s isp user alive alone = record {
  no_null = ground (arith, s.no_null);
  no_wrapper = λ q h. ground (arith, s.no_wrapper q);
  fresh = λ q h. ground (arith, s.fresh q);
  target = λ q d h nd. ground (arith, s.target q d);
  woken = λ q d h r. ground (arith, s.woken q d);
  waits = λ d nd nz. ground (arith, s.waits d);
}

-- The function of `p` returns, and its waiter is woken.
pub Sound-finish_waiter :
    (t : Tasks) (p : Ptr) (x y : Task)
    → Sound t
    → t p ≡ some x
    → x.context ≡ in_user
    → x.status ≢ dead
    → x.waiter ≢ null
    → t x.waiter ≡ some y
    → Sound (
        at
          (at t p (record x { status = dead; context = in_wrapper }))
          x.waiter
          (record y { status = running }))
Sound-finish_waiter t p x y s isp user alive waited isy = record {
  no_null = ground (arith, s.no_null);
  no_wrapper = λ q h. ground (arith, s.no_wrapper q, s.waits p);
  fresh = λ q h. ground (arith, s.fresh q);
  target = λ q d h nd. ground (arith, s.target q d, s.waits p);
  woken = λ q d h r. ground (arith, s.woken q d, s.waits p, s.target q d);
  waits = λ d nd nz. ground (arith, s.waits d, s.waits p);
}
