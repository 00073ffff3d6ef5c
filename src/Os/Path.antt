-- ===== src/Os/Path.antt =====
-- The functions of os.c that take a path apart. A path is its bytes before the zero.
pub mod Basename
pub mod Traversal
pub mod Canonical
pub mod Executable
use stdc.Prelude.Word.{u32}
use stdc.Prelude.{
  ℕ, zero, suc, ◌+◌, ◌^◌, Bool, true, false, ◌&&◌, ◌||◌, not, List, [], ◌∷◌, ◌++◌, Option, none,
  some, ltb, leb, ◌==◌, if◌then◌else◌, length,
}

abbrev pub is_separator : ℕ → Bool
is_separator c = c == b'/' || c == b'\\'

-- The loop of `os_basename`; `base` is what stands behind the last separator so far.
unfoldable pub basename_loop : List ℕ → List ℕ → List ℕ
basename_loop [] base = base
basename_loop (c ∷ p) base = basename_loop p (if is_separator c then p else base)

-- `os_basename` at a path that is there.
unfoldable pub basename : List ℕ → Option (List ℕ)
basename [] = none
basename (c ∷ path) = elim (basename_loop (c ∷ path) (c ∷ path)) [
  | [] ↦ none
  | d ∷ base ↦ some (d ∷ base)
]

-- The first inner loop of `os_traversal`: what is left behind the separators.
unfoldable pub skip : List ℕ → List ℕ
skip [] = []
skip (c ∷ p) = if is_separator c then skip p else c ∷ p

-- The second inner loop: `dot_count`, `only_dots`, and what is left behind the component.
unfoldable pub scan : ℕ → Bool → List ℕ → ℕ × (Bool × List ℕ)
scan dot_count only_dots [] = (dot_count, (only_dots, []))
scan dot_count only_dots (c ∷ p) =
    if is_separator c
    then (dot_count, (only_dots, c ∷ p))
    else scan (if c == b'.' then dot_count + 1 else dot_count) (only_dots && c == b'.') p

-- The outer loop, which goes on with what is left.
unfoldable pub traversal_loop : ℕ → List ℕ → Bool
traversal_loop zero p = false
traversal_loop (suc fuel) p = elim (skip p) [
  | [] ↦ false
  | c ∷ q ↦
      let (dot_count, (only_dots, rest)) = scan 0 true (c ∷ q) in
      let later = traversal_loop fuel rest in if only_dots && leb 2 dot_count then true else later
]

-- `os_traversal` at a path that is there: each round takes at least one byte.
unfoldable pub traversal : List ℕ → Bool
traversal path = traversal_loop (length path) path

-- `strrchr(work, '/')`: what stands before and behind the last slash.
unfoldable pub last_slash : List ℕ → Option (List ℕ × List ℕ)
last_slash [] = none
last_slash (c ∷ p) = elim (last_slash p) [
  | some (front, base) ↦ some (c ∷ front, base)
  | none ↦ if c == b'/' then some ([], p) else none
]

-- `n >= (int)capacity ? 1 : 0` behind `snprintf`, which wrote `text`; `n` is its length.
unfoldable pub fit : ℕ → List ℕ → Option (List ℕ)
fit capacity text =
    if ltb (u32 capacity) (2 ^ 31) && ltb (length text) (u32 capacity) then some text else none

-- The parent of which `os_canonical_path` asks, and the last component, from what stands before and
-- behind the last slash.
unfoldable pub parent_and_base : List ℕ → Option (List ℕ × List ℕ) → Option (List ℕ × List ℕ)
parent_and_base work none = some (b'.' ∷ [], work)
parent_and_base work (some (front, [])) = none
parent_and_base work (some ([], x ∷ base)) = some (b'/' ∷ [], x ∷ base)
parent_and_base work (some (y ∷ front, x ∷ base)) =
    if leb 4096 (length (y ∷ front)) then none else some (y ∷ front, x ∷ base)

-- The end of `os_canonical_path`, with what `realpath` answers for the parent.
unfoldable pub join : ℕ → List ℕ → Option (List ℕ) → Option (List ℕ)
join capacity base none = none
join capacity base (some resolved) = fit capacity (resolved ++ b'/' ∷ base)

unfoldable pub resolve_parent :
    (List ℕ → Option (List ℕ)) → ℕ → Option (List ℕ × List ℕ) → Option (List ℕ)
resolve_parent realpath capacity none = none
resolve_parent realpath capacity (some (parent, base)) = join capacity base (realpath parent)

-- The code behind the first call of `realpath`, with its answer; `missing` is whether `errno` is then
-- `ENOENT` or `ENOTDIR`.
unfoldable pub resolve :
    (List ℕ → Option (List ℕ)) → Bool → ℕ → List ℕ → Option (List ℕ) → Option (List ℕ)
resolve realpath missing capacity work (some existing) = fit capacity existing
resolve realpath missing capacity work none =
    if not missing
    then none
    else resolve_parent realpath capacity (parent_and_base work (last_slash work))

-- `os_canonical_path` at an output and a path that are there: what is in the output if 0 is
-- returned. `realpath` is the system's.
unfoldable pub canonical_path : (List ℕ → Option (List ℕ)) → Bool → ℕ → List ℕ → Option (List ℕ)
canonical_path realpath missing capacity path =
    if capacity == 0 || length path == 0 || leb 4096 (length path)
    then none
    else resolve realpath missing capacity path (realpath path)
