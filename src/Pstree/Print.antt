-- ===== src/Pstree/Print.antt =====
-- `print_tree` of M1-pstree/pstree.c, as the lines that it prints. `decimal` is what `printf` writes
-- for `%d`. An overflow of `new_prefix` is `none`.
use nju_os_workbench.Base.{
  ℕ, suc, ◌+◌, ◌*◌, ◌≤◌, ◌≡◌, refl, Bool, Option, none, some, List, [], ◌∷◌, ◌++◌, ltb, ◌==◌,
  if◌then◌else◌, length, length-append, arith, true, ◌<◌,
}
use nju_os_workbench.Pstree.{Proc, Tree, nil, node, max_len}
use Prim.Native.Nat.{max}

abbrev pub is_nil : Tree → Bool
is_nil nil = Bool.true
is_nil (node p child sibling) = Bool.false

-- the string literals, in UTF-8
abbrev pub dash : List ℕ
dash = 0xe2 ∷ 0x94 ∷ 0x80 ∷ []

abbrev pub connector : (last : Bool) → List ℕ
connector last =
    0xe2 ∷ 0x94 ∷ (if last then 0x94 else 0x9c) ∷ (dash ++ dash ++ dash ++ dash ++ 32 ∷ [])

abbrev pub indent : (last : Bool) → List ℕ
indent last =
    if last
    then 32 ∷ 32 ∷ 32 ∷ 32 ∷ 32 ∷ 32 ∷ []
    else 0xe2 ∷ 0x94 ∷ 0x82 ∷ 32 ∷ 32 ∷ 32 ∷ 32 ∷ 32 ∷ []

-- `strncpy` of the prefix and `strcat` behind it
abbrev pub new_prefix : (last : Bool) → (level : ℕ) → (prefix : List ℕ) → List ℕ
new_prefix last level prefix = if level == 0 then prefix else prefix ++ indent last

abbrev pub both : List ℕ → Option (List (List ℕ)) → Option (List (List ℕ)) → Option (List (List ℕ))
both line none b = none
both line (some a) none = none
both line (some a) (some b) = some (line ∷ a ++ b)

module _ (show_pid : Bool) (decimal : ℕ → List ℕ) where
  unfoldable pub line_of : Proc → (last : Bool) → (level : ℕ) → (prefix : List ℕ) → List ℕ
  line_of p last level prefix =
      prefix
      ++ (if level == 0 then [] else connector last)
      ++ p.name
      ++ (if show_pid then b'(' ∷ decimal p.pid ++ b')' ∷ [] else [])

  unfoldable pub print_tree : Tree → (level : ℕ) → (prefix : List ℕ) → Option (List (List ℕ))
  unfolding line_of
  print_tree nil level prefix = some []
  print_tree (node p child sibling) level prefix =
      let last = is_nil sibling in
      let deeper = new_prefix last level prefix in
      let below = print_tree child (level + 1) deeper in
      let beside = print_tree sibling level prefix in
      if ltb (length deeper) max_len then both (line_of p last level prefix) below beside else none

-- the nodes, and the longest way down
unfoldable pub size : Tree → ℕ
size nil = 0
size (node p child sibling) = suc (size child + size sibling)

unfoldable pub depth : Tree → ℕ
depth nil = 0
depth (node p child sibling) = max (suc (depth child)) (depth sibling)

length-indent : (last : Bool) → length (indent last) ≤ 8
length-indent last = ground arith

new_prefix-length :
    (last : Bool) (level : ℕ) (prefix : List ℕ)
    → length (new_prefix last level prefix) ≤ length prefix + 8
new_prefix-length last level prefix =
    ground (arith, length-append prefix (indent last), length-indent last)

-- `print_tree` prints one line for each process, and overflows no prefix, when the tree is so low
-- that 8 bytes for each level fit into the 128 bytes of the prefix.
pub print_tree-lines :
    (show_pid : Bool) (decimal : ℕ → List ℕ) (t : Tree) (level : ℕ) (prefix : List ℕ)
    → length prefix + 8 * depth t < max_len
    → (lines : List (List ℕ)) × (print_tree show_pid decimal t level prefix ≡ some lines)
      × (length lines ≡ size t)
unfolding print_tree depth size
print_tree-lines show_pid decimal nil level prefix fits = ([], refl, refl)
print_tree-lines show_pid decimal (node p child sibling) level prefix fits =
    let last = is_nil sibling in
    let deeper = new_prefix last level prefix in
    let longer = new_prefix-length last level prefix in
    let (below, run, n) =
      print_tree-lines show_pid decimal child (level + 1) deeper (omega (arith, longer)) in
    let (beside, run', n') = print_tree-lines show_pid decimal sibling level prefix (omega arith) in
    let room : ltb (length deeper) max_len ≡ true = ground (arith, longer) in
    (
      line_of show_pid decimal p last level prefix ∷ below ++ beside,
      rw (room, run, run') refl,
      omega (arith, length-append below beside, n, n'),
    )
