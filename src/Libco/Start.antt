-- ===== src/Libco/Start.antt =====
-- `co_start`, `init` and `fini` of M2-libco/co.c.
use nju_os_workbench.Base.{
  Option, zero, suc, [], ◌∷◌, ◌<◌, ℕ, ◌+◌, ◌≡◌, ◌≢◌, refl, none, some, true, false, List, length,
  arith, ◌==◌, if◌then◌else◌, Bool-cases, inl, inr,
}
use nju_os_workbench.Libco.Store.{Heap, Ptr, null, Status, in_user, Co, State, ok, write}
use nju_os_workbench.Libco.Chain.{
  has, Chain, Chain-block, Chain-frame, Chain-insert, insert_after, length-insert_after,
  has-insert_after_eq, load-ok,
}
use nju_os_workbench.Libco.Sound.{Sound-spawn}
use nju_os_workbench.Libco.Invariant.{view, Inv, Sound-ext}
use nju_os_workbench.Libco.{init, fini, co_start}

module _ (s : State) (ps : List Ptr) (inv : Inv s in_user ps) (me : Co)
    (is_me : s.heap s.current ≡ some me) (p name func arg : ℕ) (ne : p ≢ null)
    (unused : s.heap p ≡ none) where
  abbrev block : Co
  block = record {
    name = name;
    func = func;
    arg = arg;
    status = Status.new;
    waiter = null;
    context = in_user;
    next = null;
  }

  abbrev placed : State
  placed = record s { heap = write s.heap p (some block) }

  abbrev linked : State
  linked = record s { heap = write placed.heap s.current (some (record me { next = p })) }

  abbrev listed : State
  listed = record s {
    heap = write linked.heap p (some (record block { next = me.next }));
    co_num = s.co_num + 1;
  }

  not_member : has p ps ≡ false
  not_member = elim (Bool-cases (has p ps)) [
    | inl m ↦
        let (_, found) = Chain-block s.heap s.head p ps inv.listed.chain m in
        let (c, is) = found in cc
    | inr out ↦ out
  ]

  apart : p ≢ s.current
  apart = ground arith

  placed-me : placed.heap s.current ≡ some me
  unfolding write
  placed-me = ground (arith, apart)

  linked-block : linked.heap p ≡ some block
  unfolding write
  linked-block = ground (arith, apart)

  listed-Inv : Inv listed in_user (insert_after s.current p ps)
  unfolding view write
  listed-Inv = record {
    listed = record {
      chain =
          Chain-insert s.heap _ s.head s.current p ps me (record me { next = p })
            (record block { next = me.next }) inv.listed.chain inv.listed.current_in not_member ne
            is_me (ground (arith, apart)) refl (ground arith) refl (λ q n m. ground arith);
      count =
          omega (arith, inv.listed.count, length-insert_after s.current p ps inv.listed.current_in);
      current_in =
          ground (arith, has-insert_after_eq s.current s.current p ps, inv.listed.current_in);
      only = λ q out.
          ground
            (arith, has-insert_after_eq q s.current p ps, inv.listed.only q, inv.listed.current_in);
    };
    sound =
        Sound-ext _ _ (Sound-spawn (view s in_user) p inv.sound ne (ground (arith, apart)))
          (λ q. ground (arith, apart));
    begun = ground (arith, inv.begun, apart);
    alive = λ e. ground (arith, inv.alive, apart);
  }

-- In a sound system, where `malloc` returns an unused block, `co_start` returns that block, meets no
-- failed `assert` and no bad pointer, and leaves the system sound, with the new coroutine behind the
-- current one in the list.
pub co_start-Ready :
    (s : State) (ps : List Ptr) (p name func arg : ℕ)
    → Inv s in_user ps
    → p ≢ null
    → s.heap p ≡ none
    → (s' : State) × (co_start p name func arg s ≡ ok p s')
      × Inv s' in_user (insert_after s.current p ps)
unfolding co_start
co_start-Ready s ps p name func arg inv ne unused =
    let (nec, mine) =
      Chain-block s.heap s.head s.current ps inv.listed.chain inv.listed.current_in in
    let (me, is_me) = mine in
    let not_null : (p == null) ≡ false = ground arith in
    let not_null' : (s.current == null) ≡ false = ground arith in
    let pl = placed s ps inv me is_me p name func arg ne unused in
    let li = linked s ps inv me is_me p name func arg ne unused in
    (
      listed s ps inv me is_me p name func arg ne unused,
      rw
          (
            not_null,
            not_null',
            load-ok pl s.current me nec (placed-me s ps inv me is_me p name func arg ne unused),
            load-ok pl s.current me nec (placed-me s ps inv me is_me p name func arg ne unused),
            load-ok li p (block s ps inv me is_me p name func arg ne unused) ne
                (linked-block s ps inv me is_me p name func arg ne unused),
          )
          refl,
      listed-Inv s ps inv me is_me p name func arg ne unused,
    )

-- On an empty heap, where `malloc` returns a block whose `next` and `waiter` fields hold 0, which
-- `init` does not write, it leaves a sound system of one coroutine.
pub init-Ready :
    (s : State) (p : Ptr) (junk : Co)
    → ((q : Ptr) → s.heap q ≡ none)
    → p ≢ null
    → junk.next ≡ null
    → junk.waiter ≡ null
    → (s' : State) × (init p junk s ≡ ok tt s') × Inv s' in_user (p ∷ [])
unfolding init view write
init-Ready s p junk empty ne last alone = (
  record {
    co_num = 1;
    current = p;
    head = p;
    heap = write s.heap p (some (record junk { name = 0; status = Status.running }));
  },
  ground arith,
  record {
    listed = record {
      chain =
          (refl, ne, refl, (record junk { name = 0; status = Status.running }, ground arith, last));
      count = refl;
      current_in = ground arith;
      only = λ q out. ground (arith, empty q);
    };
    sound = record {
      no_null = ground (arith, empty null);
      no_wrapper = λ q e. ground (arith, empty q);
      fresh = λ q e. ground (arith, empty q);
      target = λ q c e nd. ground (arith, empty q);
      woken = λ q c e r. ground (arith, empty q);
      waits = λ d nd nz. ground (arith, empty d);
    };
    begun = ground arith;
    alive = λ e. ground arith;
  },
)

spared :
    (s : State) (x : Ptr) (xs : List Ptr) (q : Ptr)
    → has x xs ≡ false
    → has q xs ≡ true
    → write s.heap x none q ≡ s.heap q
unfolding write
spared s x xs q out m = ground arith

freed_with :
    (s : State) (x : Ptr) (xs : List Ptr) (q : Ptr) (r : Option Co)
    → r ≡ (if has q xs then none else write s.heap x none q)
    → r ≡ (if has q (x ∷ xs) then none else s.heap q)
unfolding write
freed_with s x xs q r e = ground arith

nonzero : (x : Ptr) → x ≢ null → (x == null) ≡ false
nonzero x ne = ground arith

-- From the head of a list of blocks `fini`, with fuel for each block, frees exactly these blocks.
pub fini-frees :
    (fuel : ℕ) (temp : Ptr) (xs : List Ptr) (s : State)
    → Chain s.heap temp xs
    → length xs < fuel
    → (g : Heap) × (fini fuel temp s ≡ ok tt (record s { heap = g }))
      × ((q : Ptr) → g q ≡ (if has q xs then none else s.heap q))
unfolding fini
fini-frees zero temp xs s ch lt = absurd (omega arith)
fini-frees (suc fuel) temp [] s ch lt = (s.heap, ground arith, λ q. refl)
fini-frees (suc fuel) temp (x ∷ xs) s ch lt =
    let (e, ne, out, tail) = ch in
    let (c, is, rest) = tail in
    let (g, run, freed) =
      fini-frees fuel c.next xs (record s { heap = write s.heap x none })
        (Chain-frame s.heap _ c.next xs rest (λ q m. spared s x xs q out m)) (omega arith) in
    (g, rw (e, nonzero x ne, load-ok s x c ne is) run, λ q. freed_with s x xs q (g q) (freed q))
