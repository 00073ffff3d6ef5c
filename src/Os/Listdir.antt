-- ===== src/Os/Listdir.antt =====
-- `os_listdir`.
pub mod Entry
pub mod Passing
use stdc.Prelude.{
  ℕ, ◌+◌, ◌≡◌, ◌↔◌, refl, sym, ◌∙◌, ◌⊎◌, inl, inr, Bool, true, false, not, ◌&&◌, ◌||◌, List, [],
  ◌∷◌, ◌++◌, arith, All, Option, none, some, ◌==◌, leb, if◌then◌else◌, Bool-cases, length,
  Option-cases, ap, subst, ◌≤◌,
}
use mathlib.Core.List.{append-nil, append_assoc}

pub data Kind : Type 0 where
  directory regular other : Kind

-- An entry as `readdir` returns it, whether `lstat` succeeds, and what it finds; a link is another kind.
pub record DirEntry : Type 0 where
  pub name : List ℕ
  pub found : Bool
  pub kind : Kind
  pub size : ℕ

-- What the callback gets beside the path.
pub record Item : Type 0 where
  pub name : List ℕ
  pub folder : Bool
  pub size : ℕ

-- `strcmp(name, ".") == 0 || strcmp(name, "..") == 0`
unfoldable pub is_dots : List ℕ → Bool
is_dots [] = false
is_dots (a ∷ []) = a == b'.'
is_dots (a ∷ b ∷ []) = a == b'.' && b == b'.'
is_dots (a ∷ b ∷ c ∷ name) = false

-- The tests of one entry other than "." and ".."; `n` is the length of the path.
unfoldable pub inspect : ℕ → DirEntry → Option Item
inspect n e = if leb 4096 (n + 1 + length e.name) || not e.found then none else elim e.kind [
  | directory ↦ some (record { name = e.name; folder = true; size = e.size })
  | regular ↦ some (record { name = e.name; folder = false; size = e.size })
  | other ↦ none
]

-- One round: the status, and the calls of the callback so far.
unfoldable pub visit : ℕ → DirEntry → ℕ × List Item → ℕ × List Item
visit n e (status, calls) =
    if is_dots e.name
    then (status, calls)
    else elim (inspect n e) [ none ↦ (1, calls) | some item ↦ (status, calls ++ item ∷ []) ]

unfoldable pub listdir_loop : ℕ → List DirEntry → ℕ × List Item → ℕ × List Item
listdir_loop n [] r = r
listdir_loop n (e ∷ entries) r = listdir_loop n entries (visit n e r)

-- `os_listdir` at a path and a callback that are there. `opened` and `closed` are whether `opendir` and
-- `closedir` succeed, and `readable` whether `readdir` ends without an error behind these entries.
unfoldable pub listdir : Bool → Bool → Bool → ℕ → List DirEntry → ℕ × List Item
listdir opened readable closed n entries =
    if not opened
    then (1, [])
    else (let (status, calls) = listdir_loop n entries (0, []) in
        (if readable && closed then status else 1, calls))
