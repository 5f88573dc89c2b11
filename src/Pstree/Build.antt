-- ===== src/Pstree/Build.antt =====
-- The tree that `tranverse_proc_dir` of M1-pstree/pstree.c builds.
use nju_os_workbench.Base.{
  sym, ◌∙◌, append_assoc, ℕ, ◌+◌, ◌≡◌, inl, inr, refl, ap, Option, none, some, List, [], ◌∷◌, ◌++◌,
  arith, ◌==◌, if◌then◌else◌, Bool-cases, Option-cases, append-nil,
}
use nju_os_workbench.Pstree.{
  Proc, Tree, Turn, find_proc, insert_at, insert, Entry, read_entry, tranverse_proc_dir,
}
use nju_os_workbench.Pstree.Insert.{added, insert_at-children, find_proc-some, insert_at-count}
unfoldable use nju_os_workbench.Pstree.Insert.{count, children_of}

-- the pids of the processes of a list with a parent
abbrev pub with_parent : ℕ → List Proc → List ℕ
with_parent q [] = []
with_parent q (p ∷ ps) = if p.ppid == q then p.pid ∷ with_parent q ps else with_parent q ps

-- Each process comes behind its parent, of which there is one.
abbrev pub ParentsFirst : (ℕ → ℕ) → List Proc → Type 0
ParentsFirst known [] = Unit
ParentsFirst known (p ∷ ps) =
    (known p.ppid ≡ 1) × ParentsFirst (λ q. known q + (if p.pid == q then 1 else 0)) ps

-- the processes that the directory has
unfoldable pub procs_of : (junk : List ℕ) → List Entry → List Proc
procs_of junk [] = []
procs_of junk (entry ∷ entries) = elim (read_entry junk entry) [
  | none ↦ procs_of junk entries
  | some p ↦ p ∷ procs_of junk entries
]

-- the processes are inserted one by one
insert_all : List Proc → Tree → Option Tree
insert_all [] root = some root
insert_all (p ∷ ps) root = elim (insert root p) [ none ↦ none | some root' ↦ insert_all ps root' ]

tranverse-insert_all :
    (junk : List ℕ) (entries : List Entry) (root : Tree)
    → tranverse_proc_dir junk entries root ≡ insert_all (procs_of junk entries) root
unfolding tranverse_proc_dir insert_all procs_of
tranverse-insert_all junk [] root = refl
tranverse-insert_all junk (entry ∷ entries) root = elim (Option-cases (read_entry junk entry)) [
  | inl skipped ↦
      rw (skipped, tranverse_proc_dir, procs_of) (tranverse-insert_all junk entries root)
  | inr (p, read) ↦ elim (Option-cases (insert root p)) [
    | inl orphan ↦ rw (read, orphan, tranverse_proc_dir, procs_of, insert_all) refl
    | inr (root', done) ↦
        rw (read, done, tranverse_proc_dir, procs_of, insert_all)
          (tranverse-insert_all junk entries root')
  ]
]

added-with_parent :
    (q : ℕ) (p : Proc) (ps : List Proc)
    → added p.ppid q p.pid ++ with_parent q ps ≡ with_parent q (p ∷ ps)
added-with_parent q p ps = elim (Bool-cases (p.ppid == q)) [ inl e ↦ rw e refl | inr e ↦ rw e refl ]

ParentsFirst-ext :
    (ps : List Proc) (known known' : ℕ → ℕ)
    → ((q : ℕ) → known' q ≡ known q)
    → ParentsFirst known ps
    → ParentsFirst known' ps
ParentsFirst-ext [] known known' same h = tt
ParentsFirst-ext (p ∷ ps) known known' same h =
    (same p.ppid ∙ h.0, ParentsFirst-ext ps _ _ (λ q. ground (arith, same q)) h.1)

insert-found :
    (root : Tree) (p : Proc) (path : List Turn)
    → find_proc root p.ppid ≡ some path
    → insert root p ≡ some (insert_at path p root)
unfolding insert
insert-found root p path found = rw (found, insert) refl

insert_all-children :
    (ps : List Proc) (root : Tree)
    → ParentsFirst (count root) ps
    → (root' : Tree) × (insert_all ps root ≡ some root')
      × ((q : ℕ) → children_of root' q ≡ children_of root q ++ with_parent q ps)
unfolding insert_all
insert_all-children [] root h = (root, refl, λ q. sym (append-nil (children_of root q)))
insert_all-children (p ∷ ps) root h =
    let (path, found) = find_proc-some root p.ppid (omega (arith, h.0)) in
    let (root', run, lists) =
      insert_all-children ps (insert_at path p root)
        (ParentsFirst-ext ps _ _ (λ q. insert_at-count root p.ppid path p q found) h.1) in
    (
      root',
      rw (insert-found root p path found, insert_all) run,
      λ q.
          lists q
          ∙ (ap (λ (l : List ℕ). l ++ with_parent q ps)
                (insert_at-children root p.ppid path p q found h.0)
              ∙ (append_assoc (children_of root q) (added p.ppid q p.pid) (with_parent q ps)
                  ∙ ap (λ (l : List ℕ). children_of root q ++ l) (added-with_parent q p ps))),
    )

-- Where each process that the directory lists comes behind its parent, of which there is one, no
-- `assert` fails, and the children of each process in the tree that is built are those that it had
-- and then, in the order of the directory, the processes that name it as their parent.
pub tranverse-children :
    (junk : List ℕ) (entries : List Entry) (root : Tree)
    → ParentsFirst (count root) (procs_of junk entries)
    → (root' : Tree) × (tranverse_proc_dir junk entries root ≡ some root')
      × ((q : ℕ)
          → children_of root' q ≡ children_of root q ++ with_parent q (procs_of junk entries))
tranverse-children junk entries root h =
    let (root', run, lists) = insert_all-children (procs_of junk entries) root h in
    (root', tranverse-insert_all junk entries root ∙ run, lists)
