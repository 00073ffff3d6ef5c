-- ===== src/Os/Remove.antt =====
-- `__os_remove_directory_fd__` and `os_remove` on a tree of files.
pub mod Laws
use stdc.Prelude.{
  ℕ, zero, suc, ◌+◌, ◌-◌, Bool, true, false, ◌&&◌, ◌||◌, not, List, [], ◌∷◌, ◌++◌, Option, none,
  some, if◌then◌else◌, ◌==◌, leb, length, take, get_or,
}

-- What the system answers about an entry that is no directory, such as a file or a link: `fstatat`
-- and `unlinkat`.
pub record LeafCalls : Type 0 where
  pub inspected : Bool
  pub unlinked : Bool

-- About a directory: `fstatat`, `openat`, `fstat` with a device and an inode that are those expected,
-- `fdopendir`, `closedir`, and `unlinkat` if the directory is empty.
pub record FolderCalls : Type 0 where
  pub inspected : Bool
  pub opened : Bool
  pub same : Bool
  pub streamed : Bool
  pub closed : Bool
  pub unlinked : Bool

-- The entries of a directory in the order of `readdir`, without "." and ".."; behind `broken` are
-- those that it does not reach, since it returns an error.
mutual
  pub data Node : Type 0 where
    leaf : LeafCalls → Node
    folder : FolderCalls → Entries → Node

  pub data Entries : Type 0 where
    nil : Entries
    entry : Node → Entries → Entries
    broken : Entries → Entries

-- Whether the result is not 0, what is left, and how many descriptors were opened and closed.
pub record Removal (A : Type 0) : Type 0 where
  pub failed : Bool
  pub left : A
  pub opens : ℕ
  pub closes : ℕ

abbrev pub removal : {A : Type 0} → Bool → A → ℕ → ℕ → Removal A
removal failed left opens closes = record {
  failed = failed;
  left = left;
  opens = opens;
  closes = closes;
}

-- A directory that holds an entry cannot be removed.
unfoldable pub is_empty : Entries → Bool
is_empty nil = true
is_empty (entry node entries) = false
is_empty (broken entries) = false

-- An entry is put back before what is left of the others, if it is still there.
unfoldable pub keep : Option Node → Entries → Entries
keep none entries = entries
keep (some node) entries = entry node entries

-- The two calls in the last line of the loop: the second is made if the first returned 0.
unfoldable pub remove_child : FolderCalls → Removal Entries → Removal (Option Node)
remove_child c r =
    if r.failed || not (c.unlinked && is_empty r.left)
    then removal true (some (folder c r.left)) (1 + r.opens) r.closes
    else removal false none (1 + r.opens) r.closes

-- `__os_remove_directory_fd__` with what its loop does; it closes the descriptor that it was given.
unfoldable pub close_directory : FolderCalls → Entries → Removal Entries → Removal Entries
close_directory c entries r =
    if not c.streamed
    then removal true entries 0 1
    else removal (r.failed || not c.closed) r.left r.opens (r.closes + 1)

-- One round of the loop and the others.
unfoldable pub both : Removal (Option Node) → Removal Entries → Removal Entries
both r s =
    removal (r.failed || s.failed) (keep r.left s.left) (r.opens + s.opens) (r.closes + s.closes)

unfoldable mutual
  unfolding remove_child close_directory both

  -- One round of the loop, by the kind of the entry.
  pub remove_node : Node → Removal (Option Node)
  remove_node (leaf c) =
      if not c.inspected
      then removal true (some (leaf c)) 0 0
      else if not c.unlinked
      then removal true (some (leaf c)) 0 0
      else removal false none 0 0
  remove_node (folder c entries) =
      if not c.inspected
      then removal true (some (folder c entries)) 0 0
      else if not c.opened
      then removal true (some (folder c entries)) 0 0
      else if not c.same
      then removal true (some (folder c entries)) 1 1
      else remove_child c (close_directory c entries (remove_entries entries))

  -- The loop over the entries.
  pub remove_entries : Entries → Removal Entries
  remove_entries nil = removal false nil 0 0
  remove_entries (broken entries) = removal true (broken entries) 0 0
  remove_entries (entry node entries) = both (remove_node node) (remove_entries entries)

-- `os_remove`, behind `snprintf`: the path without a last "/.", and `self`.
unfoldable pub trim : List ℕ → List ℕ × Bool
trim base =
    let len = length base in
    if leb 2 len
      && get_or base (len - 1) 0 == b'.'
      && (get_or base (len - 2) 0 == b'/' || get_or base (len - 2) 0 == b'\\')
    then (take (len - 2) base, false)
    else (base, true)

-- The end of `os_remove` for a directory: `current` is whether the second `lstat` finds it, with its
-- device and inode.
unfoldable pub remove_root : Bool → Bool → FolderCalls → Removal Entries → Removal (Option Node)
remove_root self current c r =
    if self
    then (if not current || not (c.unlinked && is_empty r.left)
        then removal true (some (folder c r.left)) (1 + r.opens) r.closes
        else removal r.failed none (1 + r.opens) r.closes)
    else removal r.failed (some (folder c r.left)) (1 + r.opens) r.closes

-- `os_remove` on what stands at the path; `self` is whether the path has no "/." at its end.
unfoldable pub os_remove : Bool → Bool → Node → Removal (Option Node)
unfolding remove_root
os_remove self current (leaf c) =
    if not c.inspected
    then removal true (some (leaf c)) 0 0
    else if self && c.unlinked
    then removal false none 0 0
    else removal true (some (leaf c)) 0 0
os_remove self current (folder c entries) =
    if not c.inspected
    then removal true (some (folder c entries)) 0 0
    else if not c.opened
    then removal true (some (folder c entries)) 0 0
    else if not c.same
    then removal true (some (folder c entries)) 1 1
    else remove_root self current c (close_directory c entries (remove_entries entries))
