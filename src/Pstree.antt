-- ===== src/Pstree.antt =====
-- M1-pstree/pstree.c. The tree of processes is never shared, so a tree of nodes with a child and a
-- sibling stands for the pointers, and a path from the root for the address of a node.
mod Tests
pub mod Print
pub mod Insert
pub mod Build
use nju_os_workbench.Base.{
  ℕ, zero, suc, ◌+◌, ◌-◌, ◌*◌, ◌%◌, ◌^◌, Bool, true, false, not, ◌&&◌, ◌||◌, Option, none, some,
  List, [], ◌∷◌, ◌++◌, ◌==◌, leb, ltb, if◌then◌else◌, length, take, drop,
}

-- `struct proc` without its pointers; a pid is the 32-bit pattern of an `int`
pub record Proc : Type 0 where
  pub pid : ℕ
  pub name : List ℕ
  pub ppid : ℕ

-- `nil` is the null pointer.
pub data Tree : Type 0 where
  nil : Tree
  node : Proc → (child sibling : Tree) → Tree

pub data Turn : Type 0 where
  to_child to_sibling : Turn

abbrev pub cons_turn : Turn → Option (List Turn) → Option (List Turn)
cons_turn turn none = none
cons_turn turn (some path) = some (turn ∷ path)

abbrev pub or_else : Option (List Turn) → Option (List Turn) → Option (List Turn)
or_else none b = b
or_else (some a) b = some a

-- the path to the node that is found: siblings first, then children
unfoldable pub find_proc : Tree → ℕ → Option (List Turn)
find_proc nil pid = none
find_proc (node p child sibling) pid =
    let in_sibling = cons_turn to_sibling (find_proc sibling pid) in
    let in_child = cons_turn to_child (find_proc child pid) in
    if p.pid == pid then some [] else or_else in_sibling in_child

-- `char name[MAX_LEN]`
abbrev pub max_len : ℕ
max_len = 128

-- a node with no child and no sibling; `malloc` has succeeded
unfoldable pub create_proc : (pid : ℕ) → List ℕ → (ppid : ℕ) → Proc
create_proc pid name ppid = record { pid = pid; name = take (max_len - 1) name; ppid = ppid }

-- `while (last_one->sibling) ...; last_one->sibling = proc`, or `parent->child = proc`
unfoldable pub append_last : Tree → Proc → Tree
append_last nil proc = node proc nil nil
append_last (node p child sibling) proc = node p child (append_last sibling proc)

-- `proc` becomes the last child of the node at the path
unfoldable pub insert_at : List Turn → Proc → Tree → Tree
unfolding append_last
insert_at path proc nil = nil
insert_at [] proc (node p child sibling) = node p (append_last child proc) sibling
insert_at (to_child ∷ path) proc (node p child sibling) = node p (insert_at path proc child) sibling
insert_at (to_sibling ∷ path) proc (node p child sibling) =
    node p child (insert_at path proc sibling)

abbrev pub is_space : ℕ → Bool
is_space c = (c == 32) || (leb 9 c && leb c 13)

unfoldable pub skip_spaces : List ℕ → List ℕ
skip_spaces [] = []
skip_spaces (c ∷ cs) = let rest = skip_spaces cs in if is_space c then rest else c ∷ cs

-- `sscanf(.., "%s", ..)`: the next word
unfoldable pub word : List ℕ → List ℕ
word [] = []
word (c ∷ cs) = let rest = word cs in if is_space c then [] else c ∷ rest

-- `sscanf(.., "%d", ..)` and `atoi` on decimal digits: the number, behind what is in `x`
unfoldable pub number : ℕ → List ℕ → ℕ
number x [] = x
number x (c ∷ cs) =
    let rest = number ((x * 10 + (c - 48)) % 2 ^ 32) cs in if leb 48 c && leb c 57 then rest else x

unfoldable pub starts_with : List ℕ → List ℕ → Bool
starts_with [] line = true
starts_with (c ∷ cs) [] = false
starts_with (c ∷ cs) (d ∷ line) = (c == d) && starts_with cs line

-- the loop over the lines of `/proc/<pid>/status`; it stops at the parent's pid
unfoldable pub read_lines : List (List ℕ) → (pname : List ℕ) → List ℕ × ℕ
unfolding starts_with skip_spaces word number
read_lines [] pname = (pname, 0)
read_lines (line ∷ lines) pname =
    let pname' =
      (if starts_with (b'N' ∷ b'a' ∷ b'm' ∷ b'e' ∷ b':' ∷ []) line
        then word (skip_spaces (drop 5 line))
        else pname) in
    let rest = read_lines lines pname' in
    if starts_with (b'P' ∷ b'P' ∷ b'i' ∷ b'd' ∷ b':' ∷ []) line
    then (pname', number 0 (skip_spaces (drop 5 line)))
    else rest

-- an entry of `/proc`: whether it is a directory, its name, and the lines of its file `status`, if
-- that can be opened
pub record Entry : Type 0 where
  pub is_dir : Bool
  pub d_name : List ℕ
  pub status : Option (List (List ℕ))

-- `junk` is what the uninitialised `pname` holds.
unfoldable pub read_proc_info : (junk : List ℕ) → ℕ → Option (List (List ℕ)) → Option Proc
unfolding read_lines create_proc
read_proc_info junk pid none = none
read_proc_info junk pid (some lines) =
    let (pname, ppid) = read_lines lines junk in some (create_proc pid pname ppid)

abbrev pub is_number : List ℕ → Bool
is_number [] = false
is_number (c ∷ cs) = leb 48 c && leb c 57

-- `find_proc` and the insertion; a failed `assert(parent)` is `none`
unfoldable pub insert : Tree → Proc → Option Tree
unfolding find_proc insert_at
insert root proc = elim (find_proc root proc.ppid) [
  | none ↦ none
  | some path ↦ some (insert_at path proc root)
]

-- the process of an entry, if the loop does not skip it
unfoldable pub read_entry : (junk : List ℕ) → Entry → Option Proc
unfolding read_proc_info number
read_entry junk entry =
    if entry.is_dir && is_number entry.d_name
    then read_proc_info junk (number 0 entry.d_name) entry.status
    else none

unfoldable pub tranverse_proc_dir : (junk : List ℕ) → List Entry → Tree → Option Tree
unfolding read_entry insert
tranverse_proc_dir junk [] root = some root
tranverse_proc_dir junk (entry ∷ entries) root = elim (read_entry junk entry) [
  | none ↦ tranverse_proc_dir junk entries root
  | some proc ↦ elim (insert root proc) [
    | none ↦ none
    | some root' ↦ tranverse_proc_dir junk entries root'
  ]
]

-- the order in which the nodes are freed
unfoldable pub free_tree : Tree → List Proc
free_tree nil = []
free_tree (node p child sibling) = free_tree child ++ free_tree sibling ++ p ∷ []

-- what `parse_args` does with the results of `getopt_long`
pub data Options : Type 0 where
  go_on : (show_pid : Bool) → Options
  exit_success exit_failure : Options

unfoldable pub parse_args : Bool → List ℕ → Options
parse_args show_pid [] = go_on show_pid
parse_args show_pid (opt ∷ opts) =
    if opt == b'p'
    then parse_args true opts
    else if opt == b'V'
    then exit_success
    else if opt == b'?'
    then exit_failure
    else parse_args show_pid opts
