-- ===== src/Klib/Stdlib/Malloc.antt =====
-- The blocks that `malloc` of abstract-machine/klib/src/stdlib.c hands out, and `memmove` of
-- string.c, which copies through such a block.
use nju_os_workbench.Base.{
  ℕ, ◌+◌, ◌-◌, ◌*◌, ◌/◌, ◌%◌, ◌^◌, ◌≤◌, ◌<◌, ◌≡◌, ◌↔◌, true, ◌&&◌, none, some, arith, leb, ltb,
  if◌then◌else◌,
}
use nju_os_workbench.Base.Memory.{Mem}
use nju_os_workbench.Klib.Strings.{memcpy}
use nju_os_workbench.Klib.Strings.Copy.{memcpy_lem}
use nju_os_workbench.Klib.Stdlib.{Area, Allocator, top, roundup, malloc, memmove}

-- The heap lies below a quarter of the address space; once `malloc` has run, `curr` is in the heap and
-- aligned.
pub record IsReady (heap : Area) (a : Allocator) : Type 0 where
  pub low : heap.stop < 2 ^ 62
  pub starts : heap.start ≤ top heap a
  pub room : heap.start ≤ heap.stop
  pub aligned : top heap a % 8 ≡ 0
  pub below : top heap a < 2 ^ 62 + 8

-- For a request below half of the address space, a block that `malloc` returns is aligned to 8
-- bytes, lies in the heap, starts where the blocks handed out before it end, and ends before the
-- place where the next block starts, so that no two blocks overlap; what lies above that place is
-- still free, less than 8 bytes are lost, and the allocator stays ready.
pub malloc-IsReady :
    (heap : Area) (a : Allocator) (size : ℕ) {p : ℕ} {a' : Allocator}
    → IsReady heap a
    → size < 2 ^ 63
    → malloc heap a size ≡ some (p, a')
    → (p % 8 ≡ 0)
      × (heap.start ≤ p)
      × (p ≡ top heap a)
      × (p + size ≤ top heap a')
      × (top heap a' < p + size + 8)
      × (top heap a' ≤ heap.stop)
      × IsReady heap a'
unfolding malloc
malloc-IsReady heap a size r lt e = ground arith

-- For a request below half of the address space, `malloc` halts exactly when the block, rounded up
-- to 8 bytes, does not fit into what is left of the heap.
pub malloc-none_iff :
    (heap : Area) (a : Allocator) (size : ℕ)
    → IsReady heap a
    → size < 2 ^ 63
    → (malloc heap a size ≡ none) ↔ (heap.stop < top heap a + (size + 7) / 8 * 8)
unfolding malloc
malloc-none_iff heap a size r lt = ground arith

-- When the heap has room for `n` bytes and source and destination lie below what is left of it,
-- `memmove` ends; the destination then holds the old bytes of the source, however the two overlap,
-- the temporary block, which is not given back, holds them too, and no other byte changes.
pub memmove_lem :
    (heap : Area) (a : Allocator) (m : Mem) (dst src n : ℕ)
    → IsReady heap a
    → n < 2 ^ 63
    → top heap a + (n + 7) / 8 * 8 ≤ heap.stop
    → dst + n ≤ top heap a
    → src + n ≤ top heap a
    → (g : Mem) × (a' : Allocator) × (memmove heap a m dst src n ≡ some (g, a'))
      × (top heap a' ≡ top heap a + (n + 7) / 8 * 8)
      × ((q : ℕ)
          → g q ≡ (
              if leb dst q && ltb q (dst + n)
              then m (src + (q - dst))
              else if leb (top heap a) q && ltb q (top heap a + n)
              then m (src + (q - top heap a))
              else m q))
unfolding memmove malloc
memmove_lem heap a m dst src n r lt room hd hs =
    let tmp = top heap a in
    let m' = memcpy m tmp src n in
    (
      memcpy m' dst tmp n,
      record { inited = true; curr = (tmp + roundup n 8) % 2 ^ 64 },
      ground arith,
      ground arith,
      λ q. ground (
        arith,
        memcpy_lem m' dst tmp n (omega arith) q,
        memcpy_lem m tmp src n (omega arith) q,
        memcpy_lem m tmp src n (omega arith) (tmp + (q - dst)),
      ),
    )
