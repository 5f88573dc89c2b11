-- ===== src/Libco/Chain.antt =====
-- The list of coroutines of M2-libco/co.c: the blocks that the `next` pointers lead through.
use nju_os_workbench.Base.{
  ◌≡◌, ◌≢◌, refl, subst, ◌∙◌, Bool, true, false, ◌||◌, some, List, [], ◌∷◌, arith, ◌==◌,
  if◌then◌else◌, Bool-cases, inl, inr, length, suc, ◌<◌,
}
use nju_os_workbench.Libco.Store.{
  State, Status, Place, ok, load, set_next, set_status, set_waiter, set_context, Ptr, null, Co,
  Heap, write,
}

abbrev pub has : Ptr → List Ptr → Bool
has p [] = false
has p (x ∷ xs) = (p == x) || has p xs

-- From `p` the `next` pointers lead through the distinct blocks `xs` to null.
abbrev pub Chain : Heap → Ptr → List Ptr → Type 0
Chain h p [] = p ≡ null
Chain h p (x ∷ xs) =
    (p ≡ x) × (x ≢ null) × (has x xs ≡ false) × ((c : Co) × (h x ≡ some c) × Chain h c.next xs)

-- `new` behind `cur`
unfoldable pub insert_after : (cur new : Ptr) → List Ptr → List Ptr
insert_after cur new [] = []
insert_after cur new (x ∷ xs) = if x == cur then x ∷ new ∷ xs else x ∷ insert_after cur new xs

-- less the first `p`
unfoldable pub without : Ptr → List Ptr → List Ptr
without p [] = []
without p (x ∷ xs) = if x == p then xs else x ∷ without p xs

pub has-insert_after :
    (p cur new : Ptr) (xs : List Ptr)
    → p ≢ new
    → has p xs ≡ false
    → has p (insert_after cur new xs) ≡ false
unfolding insert_after
has-insert_after p cur new [] ne h = refl
has-insert_after p cur new (x ∷ xs) ne h = ground (arith, has-insert_after p cur new xs)

pub has-without : (p q : Ptr) (xs : List Ptr) → has p xs ≡ false → has p (without q xs) ≡ false
unfolding without
has-without p q [] h = refl
has-without p q (x ∷ xs) h = ground (arith, has-without p q xs)

-- a block of the chain
pub Chain-block :
    (h : Heap) (p q : Ptr) (xs : List Ptr)
    → Chain h p xs
    → has q xs ≡ true
    → (q ≢ null) × ((c : Co) × (h q ≡ some c))
Chain-block h p q [] ch m = cc
Chain-block h p q (x ∷ xs) ch m =
    let (e, ne, out, tail) = ch in
    let (c, is, rest) = tail in
    elim (Bool-cases (q == x)) [
      | inl here ↦ (ground arith, (c, ground arith))
      | inr there ↦ Chain-block h c.next q xs rest (ground arith)
    ]

-- a change elsewhere
pub Chain-frame :
    (h g : Heap) (p : Ptr) (xs : List Ptr)
    → Chain h p xs
    → ((q : Ptr) → has q xs ≡ true → g q ≡ h q)
    → Chain g p xs
Chain-frame h g p [] ch same = ch
Chain-frame h g p (x ∷ xs) ch same =
    let (e, ne, out, tail) = ch in
    let (c, is, rest) = tail in
    (
      e,
      ne,
      out,
      (
        c,
        same x (ground arith) ∙ is,
        Chain-frame h g c.next xs rest (λ q m. same q (ground arith)),
      ),
    )

-- a change of one block that keeps its `next`
pub Chain-write :
    (h : Heap) (p q : Ptr) (xs : List Ptr) (c c' : Co)
    → Chain h p xs
    → h q ≡ some c
    → c'.next ≡ c.next
    → Chain (write h q (some c')) p xs
unfolding write
Chain-write h p q [] c c' ch is e = ch
Chain-write h p q (x ∷ xs) c c' ch is same =
    let (e, ne, out, tail) = ch in
    let (d, is', rest) = tail in
    let go = Chain-write h d.next q xs c c' rest is same in
    elim (Bool-cases (q == x)) [
      | inl here ↦
          let eq : c'.next ≡ d.next = ground arith in (e, ne, out, (c', ground arith, rw eq go))
      | inr there ↦ (e, ne, out, (d, ground arith, go))
    ]

-- `new` linked in behind `cur`
pub Chain-insert :
    (h g : Heap) (p cur new : Ptr) (xs : List Ptr) (c c' n : Co)
    → Chain h p xs
    → has cur xs ≡ true
    → has new xs ≡ false
    → new ≢ null
    → h cur ≡ some c
    → g cur ≡ some c'
    → c'.next ≡ new
    → g new ≡ some n
    → n.next ≡ c.next
    → ((q : Ptr) → q ≢ cur → q ≢ new → g q ≡ h q)
    → Chain g p (insert_after cur new xs)
unfolding insert_after
Chain-insert h g p cur new [] c c' n ch m out ne is is' to isn on same = cc
Chain-insert h g p cur new (x ∷ xs) c c' n ch m out ne is is' to isn on same =
    let (e, nex, outx, tail) = ch in
    let (d, isd, rest) = tail in
    elim (Bool-cases (x == cur)) [
      | inl here ↦ rw here (
        e,
        nex,
        ground arith,
        (
          c',
          ground arith,
          (
            to,
            ne,
            ground arith,
            (
              n,
              isn,
              Chain-frame h g n.next xs (subst (λ r. Chain h r xs) (ground arith) rest)
                  (λ q m. same q (ground arith) (ground arith)),
            ),
          ),
        ),
      )
      | inr there ↦ rw there (
        e,
        nex,
        has-insert_after x cur new xs (ground arith) outx,
        (
          d,
          same x (ground arith) (ground arith) ∙ isd,
          Chain-insert h g d.next cur new xs c c' n rest (ground arith) (ground arith) ne is is' to
              isn on same,
        ),
      )
    ]

pub has-without_self :
    (h : Heap) (p q : Ptr) (xs : List Ptr) → Chain h p xs → has q (without q xs) ≡ false
unfolding without
has-without_self h p q [] ch = refl
has-without_self h p q (x ∷ xs) ch =
    let (e, ne, out, tail) = ch in
    let (c, is, rest) = tail in ground (arith, has-without_self h c.next q xs rest)

pub has-without_ne : (p q : Ptr) (xs : List Ptr) → p ≢ q → has p (without q xs) ≡ has p xs
unfolding without
has-without_ne p q [] ne = refl
has-without_ne p q (x ∷ xs) ne = ground (arith, has-without_ne p q xs)

pub length-without :
    (q : Ptr) (xs : List Ptr) → has q xs ≡ true → suc (length (without q xs)) ≡ length xs
unfolding without
length-without q [] m = cc
length-without q (x ∷ xs) m = ground (arith, length-without q xs)

pub length-insert_after :
    (cur new : Ptr) (xs : List Ptr)
    → has cur xs ≡ true
    → length (insert_after cur new xs) ≡ suc (length xs)
unfolding insert_after
length-insert_after cur new [] m = cc
length-insert_after cur new (x ∷ xs) m = ground (arith, length-insert_after cur new xs)

pub has-insert_after_eq :
    (p cur new : Ptr) (xs : List Ptr)
    → has cur xs ≡ true
    → has p (insert_after cur new xs) ≡ ((p == new) || has p xs)
unfolding insert_after
has-insert_after_eq p cur new [] m = cc
has-insert_after_eq p cur new (x ∷ xs) m = ground (arith, has-insert_after_eq p cur new xs)

pub length-pos : (q : Ptr) (xs : List Ptr) → has q xs ≡ true → 0 < length xs
length-pos q [] m = cc
length-pos q (x ∷ xs) m = omega arith

-- reading and writing a block that is there
module _ (s : State) (p : Ptr) (c : Co) (ne : p ≢ null) (is : s.heap p ≡ some c) where
  pub load-ok : load p s ≡ ok c s
  unfolding load
  load-ok = ground arith

  pub set_next-ok :
      (q : Ptr)
      → set_next p q s ≡ ok tt (record s { heap = write s.heap p (some (record c { next = q })) })
  unfolding set_next
  set_next-ok q = rw load-ok

  pub set_status-ok :
      (st : Status)
      → set_status p st s
        ≡ ok tt (record s { heap = write s.heap p (some (record c { status = st })) })
  unfolding set_status
  set_status-ok st = rw load-ok

  pub set_waiter-ok :
      (w : Ptr)
      → set_waiter p w s
        ≡ ok tt (record s { heap = write s.heap p (some (record c { waiter = w })) })
  unfolding set_waiter
  set_waiter-ok w = rw load-ok

  pub set_context-ok :
      (k : Place)
      → set_context p k s
        ≡ ok tt (record s { heap = write s.heap p (some (record c { context = k })) })
  unfolding set_context
  set_context-ok k = rw load-ok
