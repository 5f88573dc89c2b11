-- ===== src/Libco/Unlink.antt =====
-- The walks of `random_select_co` and `remove_co` of M2-libco/co.c along the list.
use nju_os_workbench.Base.{
  none, if◌then◌else◌, ◌≤◌, ◌-◌, ◌+◌, ℕ, zero, suc, ◌<◌, ◌≡◌, ◌≢◌, refl, ◌∙◌, true, false, some,
  List, [], ◌∷◌, arith, ◌==◌, length, get_elem?, Bool-cases, inl, inr, ◌%◌,
}
use nju_os_workbench.Libco.Store.{Ptr, null, Co, Heap, State, ok, write, load, set_next, task}
use nju_os_workbench.Libco.Chain.{
  has, Chain, has-without_self, length-without, without, has-without, Chain-frame,
}
use nju_os_workbench.Libco.{remove_co, unlink, walk, random_select_co}

get_elem?-has : (xs : List Ptr) (i : ℕ) {q : Ptr} → get_elem? xs i ≡ some q → has q xs ≡ true
get_elem?-has [] i e = cc
get_elem?-has (x ∷ xs) zero e = ground arith
get_elem?-has (x ∷ xs) (suc i) e = ground (arith, get_elem?-has xs i e)

walk-nth :
    (i : ℕ) (p : Ptr) (xs : List Ptr) (s : State)
    → Chain s.heap p xs
    → i < length xs
    → (q : Ptr) × (walk i p s ≡ ok q s) × (get_elem? xs i ≡ some q)
unfolding walk load
walk-nth i p [] s ch lt = absurd (omega arith)
walk-nth zero p (x ∷ xs) s ch lt = (x, ground arith, refl)
walk-nth (suc i) p (x ∷ xs) s ch lt =
    let (e, ne, out, tail) = ch in
    let (c, is, rest) = tail in
    let (q, run, at) = walk-nth i c.next xs s rest (omega arith) in (q, ground arith, at)

-- In a list of `co_num` blocks `random_select_co` picks, without a fault, the one whose index is
-- the random number modulo `co_num`, and changes nothing.
pub random_select_co-nth :
    (random : ℕ) (xs : List Ptr) (s : State)
    → Chain s.heap s.head xs
    → s.co_num ≡ length xs
    → 0 < length xs
    → (q : Ptr) × (random_select_co random s ≡ ok q s)
      × (get_elem? xs (random % length xs) ≡ some q)
      × (has q xs ≡ true)
unfolding random_select_co
random_select_co-nth random xs s ch count some_left =
    let (q, run, at) = walk-nth (random % length xs) s.head xs s ch (omega arith) in
    (q, ground arith, at, get_elem?-has xs _ at)

-- What the walk of `remove_co` leaves, from a block `prev` on.
record Unlinked (h g : Heap) (co prev : Ptr) (xs : List Ptr) : Type 0 where
  block : Co
  is : g prev ≡ some block
  chain : Chain g block.next (without co xs)
  same : (q : Ptr) → has q xs ≡ false → q ≢ prev → g q ≡ h q
  tasks : (q : Ptr) → task (g q) ≡ task (h q)

unlink-Unlinked :
    (fuel : ℕ) (co prev temp : Ptr) (xs : List Ptr) (s : State) (c : Co)
    → prev ≢ null
    → s.heap prev ≡ some c
    → c.next ≡ temp
    → has prev xs ≡ false
    → Chain s.heap temp xs
    → length xs < fuel
    → (g : Heap) × (unlink fuel co prev temp s ≡ ok tt (record s { heap = g }))
      × Unlinked s.heap g co prev xs
unfolding unlink load set_next without write
unlink-Unlinked zero co prev temp xs s c ne is to out ch lt = absurd (omega arith)
unlink-Unlinked (suc fuel) co prev temp [] s c ne is to out ch lt = (
  s.heap,
  ground arith,
  record { block = c; is = is; chain = to ∙ ch; same = λ q m n. refl; tasks = λ q. refl },
)
unlink-Unlinked (suc fuel) co prev temp (x ∷ xs) s c ne is to out ch lt =
    let (e, nex, outx, tail) = ch in
    let (d, isd, rest) = tail in
    elim (Bool-cases (x == co)) [
      | inl here ↦ (
        write s.heap prev (some (record c { next = d.next })),
        ground arith,
        record {
          block = record c { next = d.next };
          is = ground arith;
          chain = rw here (Chain-frame s.heap _ d.next xs rest (λ q m. ground arith));
          same = λ q m n. ground arith;
          tasks = λ q. ground arith;
        },
      )
      | inr there ↦
          let (g, run, u) =
            unlink-Unlinked fuel co x d.next xs s d nex isd refl outx rest (omega arith) in
          (
            g,
            ground (arith, run),
            record {
              block = c;
              is = u.same prev (ground arith) (ground arith) ∙ is;
              chain =
                  rw there (ground arith, nex, has-without x co xs outx, (u.block, u.is, u.chain));
              same = λ q m n. u.same q (ground arith) (ground arith);
              tasks = u.tasks;
            },
          )
    ]

-- the first step of the walk, from the head
record Removed (h g : Heap) (co head' : Ptr) (xs : List Ptr) : Type 0 where
  chain : Chain g head' (without co xs)
  tasks : (q : Ptr) → task (g q) ≡ task (h q)

unlink-head :
    (fuel : ℕ) (co : Ptr) (xs : List Ptr) (s : State)
    → Chain s.heap s.head xs
    → has co xs ≡ true
    → length xs ≤ fuel
    → (g : Heap) × (head' : Ptr) × (unlink (suc fuel) co null s.head s
        ≡ ok tt (record s { heap = g; head = head' }))
      × Removed s.heap g co head' xs
unfolding unlink load without
unlink-head fuel co [] s ch m lt = cc
unlink-head fuel co (x ∷ xs) s ch m lt =
    let (e, ne, out, tail) = ch in
    let (d, is, rest) = tail in
    elim (Bool-cases (x == co)) [
      | inl here ↦
          (s.heap, d.next, ground arith, record { chain = rw here rest; tasks = λ q. refl })
      | inr there ↦
          let (g, run, u) =
            unlink-Unlinked fuel co x d.next xs s d ne is refl out rest (omega arith) in
          (
            g,
            s.head,
            ground (arith, run),
            record {
              chain = rw there (e, ne, has-without x co xs out, (u.block, u.is, u.chain));
              tasks = u.tasks;
            },
          )
    ]

-- Called for a coroutine in the list other than the current one, `remove_co` ends without a fault:
-- the list then lacks it, its block is freed, `co_num` is the length of the list again, and of the
-- other coroutines nothing but the list pointers has changed.
pub remove_co-without :
    (co : Ptr) (xs : List Ptr) (s : State)
    → Chain s.heap s.head xs
    → s.co_num ≡ length xs
    → has co xs ≡ true
    → s.current ≢ co
    → (s' : State) × (remove_co co s ≡ ok tt s')
      × Chain s'.heap s'.head (without co xs)
      × (s'.co_num ≡ length (without co xs))
      × (s'.current ≡ s.current)
      × ((q : Ptr) → task (s'.heap q) ≡ (if q == co then none else task (s.heap q)))
unfolding remove_co write
remove_co-without co xs s ch count m ne =
    let (g, head', run, u) = unlink-head s.co_num co xs s ch m (omega arith) in
    let len = length-without co xs m in
    let e : s.co_num + 1 ≡ suc s.co_num = omega arith in
    (
      record s { heap = write g co none; head = head'; co_num = s.co_num - 1 },
      ground (arith, e, run, len),
      Chain-frame g _ head' (without co xs) u.chain
          (λ q i. ground (arith, has-without_self s.heap s.head co xs ch)),
      omega (arith, len),
      refl,
      λ q. ground (arith, u.tasks q),
    )
