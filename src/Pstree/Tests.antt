-- ===== src/Pstree/Tests.antt =====
-- The tree of M1-pstree/pstree.c with the processes 1 and 7, of which 1 is the root.
use nju_os_workbench.Pstree.{Tree, nil, node, create_proc, Entry, tranverse_proc_dir}
unfoldable use nju_os_workbench.Pstree.{
  create_proc, tranverse_proc_dir, read_entry, read_proc_info, read_lines, starts_with, word,
  number, skip_spaces, insert, find_proc, insert_at, append_last,
}
unfoldable use nju_os_workbench.Pstree.Print.{print_tree, size, depth}
use nju_os_workbench.Pstree.Print.{print_tree-lines}
unfoldable use nju_os_workbench.Pstree.Insert.{count, children_of}
unfoldable use nju_os_workbench.Pstree.Build.{procs_of}
use nju_os_workbench.Pstree.Build.{with_parent, tranverse-children}
use nju_os_workbench.Base.{ℕ, ◌+◌, ◌≡◌, refl, true, none, some, List, [], ◌∷◌, ◌++◌, arith, length}

abbrev root : Tree
root = node (record { pid = 1; name = b'a' ∷ []; ppid = 0 }) nil nil

abbrev two_processes : Tree
two_processes =
    node (record { pid = 1; name = b'a' ∷ []; ppid = 0 })
      (node (record { pid = 7; name = b'b' ∷ []; ppid = 1 }) nil nil) nil

abbrev digit : ℕ → List ℕ
digit n = (48 + n) ∷ []

print_tree-lines_example :
    (lines : List (List ℕ)) × (print_tree true digit two_processes 0 [] ≡ some lines)
    × (length lines ≡ 2)
unfolding depth size
print_tree-lines_example = print_tree-lines true digit two_processes 0 [] (omega arith)

-- `/proc/7/status`, and an entry that is no process
abbrev entries : List Entry
entries =
    record {
      is_dir = true;
      d_name = b'7' ∷ [];
      status = some (
          (b'N' ∷ b'a' ∷ b'm' ∷ b'e' ∷ b':' ∷ 9 ∷ b'b' ∷ [])
          ∷ (b'P' ∷ b'P' ∷ b'i' ∷ b'd' ∷ b':' ∷ 9 ∷ b'1' ∷ [])
          ∷ []);
    }
    ∷ record { is_dir = true; d_name = b'f' ∷ b's' ∷ []; status = none }
    ∷ []

tranverse-children_example :
    (root' : Tree) × (tranverse_proc_dir [] entries root ≡ some root')
    × ((q : ℕ) → children_of root' q ≡ children_of root q ++ with_parent q (procs_of [] entries))
unfolding procs_of read_entry read_proc_info read_lines starts_with word number skip_spaces
    create_proc count
tranverse-children_example = tranverse-children [] entries root (refl, tt)

tree_built : tranverse_proc_dir [] entries root ≡ some two_processes
unfolding tranverse_proc_dir read_entry read_proc_info read_lines starts_with word number
    skip_spaces create_proc insert find_proc insert_at append_last
tree_built = refl
