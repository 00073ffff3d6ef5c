-- ===== src/Os/Query.antt =====
-- The functions of os.c that ask what stands at a path, with the answer of the system.
use stdc.Os.Listdir.{Kind, directory, regular, other}
use stdc.Prelude.Int.{ℤ, pos, negsuc}
use stdc.Prelude.{
  ℕ, ◌≡◌, refl, ◌⊎◌, inl, inr, Bool, true, false, ◌&&◌, ◌||◌, List, [], ◌∷◌, Option, none, some,
  arith, ◌==◌,
}

-- `errno` where the functions tell its values apart.
pub data Errno : Type 0 where
  missing not_directory exists denied : Errno

-- What the functions read of `struct stat`.
pub record Status : Type 0 where
  pub kind : Kind
  pub size : ℕ
  pub device : ℕ
  pub inode : ℕ

-- `os_access`, with the answer of `lstat`, which does not follow links.
unfoldable pub access : List ℕ → Errno ⊎ Status → ℤ
access [] answer = negsuc 0
access (c ∷ path) (inr status) = pos 1
access (c ∷ path) (inl missing) = pos 0
access (c ∷ path) (inl not_directory) = pos 0
access (c ∷ path) (inl exists) = negsuc 0
access (c ∷ path) (inl denied) = negsuc 0

unfoldable pub is_directory : Kind → Bool
is_directory directory = true
is_directory regular = false
is_directory other = false

unfoldable pub is_regular : Kind → Bool
is_regular directory = false
is_regular regular = true
is_regular other = false

-- `os_isdir` and `os_isfile`, with the answer of `stat`.
unfoldable pub isdir : List ℕ → Errno ⊎ Status → Bool
isdir [] answer = false
isdir (c ∷ path) (inl e) = false
isdir (c ∷ path) (inr status) = is_directory status.kind

unfoldable pub isfile : List ℕ → Errno ⊎ Status → Bool
isfile [] answer = false
isfile (c ∷ path) (inl e) = false
isfile (c ∷ path) (inr status) = is_regular status.kind

-- `os_mkdir`: `mkdir` succeeds or sets `errno`.
unfoldable pub make_directory : Option Errno → ℕ
make_directory none = 0
make_directory (some missing) = 1
make_directory (some not_directory) = 1
make_directory (some exists) = 0
make_directory (some denied) = 1

-- `os_file_size` at a path that is there, with the answer of `stat`.
unfoldable pub file_size : Errno ⊎ Status → ℤ
file_size (inl e) = negsuc 0
file_size (inr status) = pos status.size

-- `os_stream_matches_path` at a stream and a path that are there, with what `fstat` and `stat` find.
unfoldable pub stream_matches_path : Option Status → Errno ⊎ Status → Bool
stream_matches_path none current = false
stream_matches_path (some opened) (inl e) = false
stream_matches_path (some opened) (inr current) =
    opened.device == current.device && opened.inode == current.inode

-- A link that leads somewhere is there itself, so that what is a directory or a file is not both, and
-- exists for `os_access`.
pub isdir-access :
    (path : List ℕ) (followed entry : Errno ⊎ Status)
    → ((status : Status) → followed ≡ inr status → (there : Status) × (entry ≡ inr there))
    → (isdir path followed || isfile path followed) ≡ true
    → (access path entry ≡ pos 1) × ((isdir path followed && isfile path followed) ≡ false)
unfolding isdir isfile access
isdir-access [] followed entry links h = absurd (cc h)
isdir-access (c ∷ path) (inl e) entry links h = absurd (cc h)
isdir-access (c ∷ path) (inr status) entry links h =
    let (there, e) = links status refl in (rw (e, access) refl, one_kind status.kind)
  where
    one_kind : (k : Kind) → (is_directory k && is_regular k) ≡ false
    one_kind directory = unfold is_directory is_regular in refl
    one_kind regular = unfold is_directory is_regular in refl
    one_kind other = unfold is_directory is_regular in refl

-- Two streams that match one path are of the same file.
pub matches-same :
    (a b : Status) (current : Errno ⊎ Status)
    → stream_matches_path (some a) current ≡ true
    → stream_matches_path (some b) current ≡ true
    → stream_matches_path (some a) (inr b) ≡ true
unfolding stream_matches_path
matches-same a b (inl e) g h = absurd (cc g)
matches-same a b (inr current) g h = ground (arith, g, h)
