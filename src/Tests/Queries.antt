-- ===== src/Tests/Queries.antt =====
-- The functions of os.c that ask about a path, on small inputs.
use stdc.Os.Listdir.{regular}
use stdc.Os.Path.{last_slash}
use stdc.Os.Path.Executable.{cut_slash, getexec}
use stdc.Os.Query.{
  exists, denied, missing, Status, access, is_directory, is_regular, isdir, isfile, make_directory,
  file_size, stream_matches_path,
}
use stdc.Prelude.Int.{pos, negsuc}
use stdc.Prelude.{ℕ, ◌≡◌, refl, inl, inr, true, false, List, [], ◌∷◌, some}

program : Unit {0}
unfolding access is_directory is_regular isdir isfile make_directory file_size stream_matches_path
    last_slash cut_slash getexec
program = tt

abbrev path : List ℕ
path = b'/' ∷ b'a' ∷ b'/' ∷ b'b' ∷ []

abbrev a_file : Status
a_file = record { kind = regular; size = 7; device = 1; inode = 2 }

-- `os_mkdir` reports success where a file has the name, which is no directory then.
mkdir_over_file : (make_directory (some exists) ≡ 0) × (isdir path (inr a_file) ≡ false)
unfolding program
mkdir_over_file = (refl, refl)

accesses :
    (access path (inl missing) ≡ pos 0)
    × ((access path (inl denied) ≡ negsuc 0) × (access [] (inr a_file) ≡ negsuc 0))
unfolding program
accesses = (refl, (refl, refl))

same_file :
    (stream_matches_path (some a_file) (inr a_file) ≡ true)
    × (stream_matches_path (some (record a_file { inode = 3 })) (inr a_file) ≡ false)
unfolding program
same_file = (refl, refl)

executable : getexec 9 (some path) ≡ b'/' ∷ b'a' ∷ []
unfolding program
executable = refl

-- A buffer of three bytes cuts the path, and then the directory is another one.
executable_cut : getexec 3 (some path) ≡ []
unfolding program
executable_cut = refl
