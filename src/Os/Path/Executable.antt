-- ===== src/Os/Path/Executable.antt =====
-- `os_getexec` of os.c, as it is on Linux.
use stdc.Os.Path.{last_slash}
use stdc.Os.Path.Canonical.{NoSlash, Cut, uncut, cut, last_slash-Cut}
use stdc.Prelude.{
  ℕ, ◌-◌, ◌<◌, ◌≡◌, refl, subst, List, [], ◌∷◌, ◌++◌, arith, length, Option, none, some, take,
  take-all,
}

-- The text up to the last slash, or all of it.
unfoldable pub cut_slash : List ℕ → Option (List ℕ × List ℕ) → List ℕ
cut_slash text none = text
cut_slash text (some (front, base)) = front

-- What is in a buffer of a positive size at the end, with the answer of `readlink`, which writes no
-- more than it is asked for.
unfoldable pub getexec : ℕ → Option (List ℕ) → List ℕ
getexec size none = []
getexec size (some target) = let text = take (size - 1) target in cut_slash text (last_slash text)

-- The text of a path up to its last slash.
pub data IsDirname (path : List ℕ) : List ℕ → Type 0 where
  bare : NoSlash path → IsDirname path path
  within :
      {dir : List ℕ} (base : List ℕ) → NoSlash base → path ≡ dir ++ b'/' ∷ base → IsDirname path dir

cut_slash-IsDirname :
    (text : List ℕ) (r : Option (List ℕ × List ℕ)) → Cut text r → IsDirname text (cut_slash text r)
unfolding cut_slash
cut_slash-IsDirname text _ (uncut h) = bare h
cut_slash-IsDirname _ _ (cut front base h) = within base h refl

-- `os_getexec` leaves the directory of the executable where its path is shorter than the buffer.
pub getexec-IsDirname :
    (size : ℕ) (target : List ℕ)
    → length target < size
    → IsDirname target (getexec size (some target))
unfolding getexec
getexec-IsDirname size target h =
    let whole : take (size - 1) target ≡ target = take-all (size - 1) target (omega arith) in
    subst
      (λ t. IsDirname t (cut_slash (take (size - 1) target) (last_slash (take (size - 1) target))))
      whole (cut_slash-IsDirname _ _ (last_slash-Cut (take (size - 1) target)))
