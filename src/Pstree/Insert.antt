-- ===== src/Pstree/Insert.antt =====
-- `find_proc` and the insertion of M1-pstree/pstree.c: what they do to the children of a process.
use nju_os_workbench.Base.{
  append_assoc, ℕ, ◌+◌, ◌≤◌, ◌≡◌, ◌⊎◌, inl, inr, refl, ap, true, false, none, some, List, [], ◌∷◌,
  ◌++◌, arith, ◌==◌, if◌then◌else◌, Bool-cases, Option-cases, append-nil, ==_iff,
}
use nju_os_workbench.Pstree.{
  Proc, Tree, nil, node, Turn, to_child, to_sibling, find_proc, append_last, insert_at,
}

-- how many processes of the tree have this pid
unfoldable pub count : Tree → ℕ → ℕ
count nil q = 0
count (node p child sibling) q = (if p.pid == q then 1 else 0) + (count sibling q + count child q)

-- the pids of a node and of its siblings behind it
unfoldable pub chain : Tree → List ℕ
chain nil = []
chain (node p child sibling) = p.pid ∷ chain sibling

-- the pids of the children of the processes with a pid, in the order of the tree
unfoldable pub children_of : Tree → ℕ → List ℕ
unfolding chain
children_of nil q = []
children_of (node p child sibling) q =
    (if p.pid == q then chain child else []) ++ (children_of sibling q ++ children_of child q)

pub children_of-count : (t : Tree) (q : ℕ) → count t q ≡ 0 → children_of t q ≡ []
unfolding count children_of
children_of-count nil q e = refl
children_of-count (node p child sibling) q e =
    ground (arith, children_of-count child q, children_of-count sibling q)

chain-append_last : (t : Tree) (p : Proc) → chain (append_last t p) ≡ chain t ++ p.pid ∷ []
unfolding chain append_last
chain-append_last nil p = refl
chain-append_last (node x child sibling) p =
    ap (λ (l : List ℕ). x.pid ∷ l) (chain-append_last sibling p)

children_of-append_last :
    (t : Tree) (p : Proc) (q : ℕ) → children_of (append_last t p) q ≡ children_of t q
unfolding children_of append_last
children_of-append_last nil p q = ground arith
children_of-append_last (node x child sibling) p q = rw (children_of-append_last sibling p q) refl

count-append_last :
    (t : Tree) (p : Proc) (q : ℕ)
    → count (append_last t p) q ≡ count t q + (if p.pid == q then 1 else 0)
unfolding count append_last
count-append_last nil p q = ground arith
count-append_last (node x child sibling) p q = omega (arith, count-append_last sibling p q)

-- how a node is found
find_proc-cases :
    (p : Proc) (child sibling : Tree) (q : ℕ) (path : List Turn)
    → find_proc (node p child sibling) q ≡ some path
    → ((p.pid == q) ≡ true) × (path ≡ [])
      ⊎ (((p.pid == q) ≡ false)
          × (((rest : List Turn) × (find_proc sibling q ≡ some rest) × (path ≡ to_sibling ∷ rest))
              ⊎ ((find_proc sibling q ≡ none)
                  × ((rest : List Turn) × (find_proc child q ≡ some rest)
                      × (path ≡ to_child ∷ rest)))))
unfolding find_proc
find_proc-cases p child sibling q path e = elim (Bool-cases (p.pid == q)) [
  | inl here ↦ inl (here, ground arith)
  | inr other ↦ inr (
    other,
    elim (Option-cases (find_proc sibling q)) [
      | inr (rest, found) ↦ inl (rest, found, ground arith)
      | inl missing ↦ elim (Option-cases (find_proc child q)) [
        | inr (rest, found) ↦ inr (missing, (rest, found, ground arith))
        | inl missing' ↦ absurd (ground arith)
      ]
    ],
  )
]

find_proc-none : (t : Tree) (q : ℕ) → find_proc t q ≡ none → count t q ≡ 0
unfolding find_proc count
find_proc-none nil q e = refl
find_proc-none (node p child sibling) q e =
    ground (arith, find_proc-none child q, find_proc-none sibling q)

pub find_proc-some :
    (t : Tree) (q : ℕ) → 1 ≤ count t q → (path : List Turn) × (find_proc t q ≡ some path)
find_proc-some t q le = elim (Option-cases (find_proc t q)) [
  | inl missing ↦ absurd (omega (arith, find_proc-none t q missing))
  | inr found ↦ found
]

pub nothing_found : (q : ℕ) (path : List Turn) → ¬ (find_proc nil q ≡ some path)
unfolding find_proc
nothing_found q path e = cc

pub insert_at-count :
    (t : Tree) (q : ℕ) (path : List Turn) (proc : Proc) (r : ℕ)
    → find_proc t q ≡ some path
    → count (insert_at path proc t) r ≡ count t r + (if proc.pid == r then 1 else 0)
unfolding insert_at count
insert_at-count nil q path proc r e = absurd (nothing_found q path e)
insert_at-count (node p child sibling) q path proc r e =
    elim (find_proc-cases p child sibling q path e) [
      | inl (here, is) ↦ rw is (omega (arith, count-append_last child proc r))
      | inr (other, inl (rest, found, is)) ↦
          rw is (omega (arith, insert_at-count sibling q rest proc r found))
      | inr (other, inr (missing, (rest, found, is))) ↦
          rw is (omega (arith, insert_at-count child q rest proc r found))
    ]

find_proc-count : (t : Tree) (q : ℕ) (path : List Turn) → find_proc t q ≡ some path → 1 ≤ count t q
unfolding find_proc count
find_proc-count nil q path e = absurd (nothing_found q path e)
find_proc-count (node p child sibling) q path e = elim (find_proc-cases p child sibling q path e) [
  | inl (here, is) ↦ rw here (omega arith)
  | inr (other, inl (rest, found, is)) ↦ omega (arith, find_proc-count sibling q rest found)
  | inr (other, inr (missing, (rest, found, is))) ↦
      omega (arith, find_proc-count child q rest found)
]

-- a list that is appended inside goes to the end, when nothing else stands there
move_behind : (a b c e : List ℕ) → (c ≡ []) ⊎ (e ≡ []) → a ++ ((b ++ e) ++ c) ≡ (a ++ (b ++ c)) ++ e
move_behind a b c e (inl none_left) = rw none_left (simp (append-nil, append_assoc))
move_behind a b c e (inr none_new) = rw none_new (simp append-nil)

-- what is new for the process `r` when the parent is `q`
abbrev pub added : (q r pid : ℕ) → List ℕ
added q r pid = if q == r then pid ∷ [] else []

added-or : (t : Tree) (q r pid : ℕ) → count t q ≡ 0 → (children_of t r ≡ []) ⊎ (added q r pid ≡ [])
added-or t q r pid e = elim (Bool-cases (q == r)) [
  | inl same ↦ inl (children_of-count t r (ground arith))
  | inr other ↦ inr (rw other refl)
]

insert_here :
    (p proc : Proc) (child sibling : Tree) (q r : ℕ)
    → p.pid ≡ q
    → count sibling q ≡ 0
    → count child q ≡ 0
    → (if p.pid == r then chain child ++ proc.pid ∷ [] else [])
        ++ (children_of sibling r ++ children_of child r)
      ≡ ((if p.pid == r then chain child else []) ++ (children_of sibling r ++ children_of child r))
        ++ added q r proc.pid
insert_here p proc child sibling q r same e e' = elim (Bool-cases (q == r)) [
  | inl here ↦
      let is : (p.pid == r) ≡ true = ground arith in
      let a = children_of-count sibling r (ground arith) in
      let b = children_of-count child r (ground arith) in rw (here, is, a, b) (simp append-nil)
  | inr other ↦ let is : (p.pid == r) ≡ false = ground arith in rw (other, is) (simp append-nil)
]

chain-insert_at :
    (path : List Turn) (proc : Proc) (t : Tree) → chain (insert_at path proc t) ≡ chain t
unfolding chain insert_at
chain-insert_at path proc nil = refl
chain-insert_at [] proc (node p child sibling) = refl
chain-insert_at (to_child ∷ path) proc (node p child sibling) = refl
chain-insert_at (to_sibling ∷ path) proc (node p child sibling) =
    ap (λ (l : List ℕ). p.pid ∷ l) (chain-insert_at path proc sibling)

-- a new process stands last among the children of its parent
pub insert_at-children :
    (t : Tree) (q : ℕ) (path : List Turn) (proc : Proc) (r : ℕ)
    → find_proc t q ≡ some path
    → count t q ≡ 1
    → children_of (insert_at path proc t) r ≡ children_of t r ++ added q r proc.pid
unfolding insert_at children_of count
insert_at-children nil q path proc r e one = absurd (nothing_found q path e)
insert_at-children (node p child sibling) q path proc r e one =
    elim (find_proc-cases p child sibling q path e) [
      | inl (here, is) ↦
          rw (is, chain-append_last child proc, children_of-append_last child proc r)
            (insert_here p proc child sibling q r ((==_iff _ _).0 here) (ground arith)
              (ground arith))
      | inr (other, inl (rest, found, is)) ↦
          let le = find_proc-count sibling q rest found in
          rw (is, insert_at-children sibling q rest proc r found (omega arith))
            (move_behind (if p.pid == r then chain child else []) (children_of sibling r)
              (children_of child r) (added q r proc.pid)
              (added-or child q r proc.pid (omega arith)))
      | inr (other, inr (missing, (rest, found, is))) ↦
          let le = find_proc-count child q rest found in
          rw (is, insert_at-children child q rest proc r found (omega arith))
            (simp (append_assoc, chain-insert_at rest proc child))
    ]
