-- ===== src/Tests/Systems.antt =====
-- os.c on small inputs.
use stdc.Os.Descriptor.{
  File, OpenCalls, private_mode, prepared, fopen_private_write, fopen_private_write_safe, Held,
  MapCalls, mmap, munmap, lock_loop, path_rwlock, path_rwunlock,
}
use stdc.Os.Fill.{Fills, random_bytes-Fills}
use stdc.Os.Listdir.{
  DirEntry, directory, regular, other, is_dots, inspect, visit, listdir_loop, listdir,
}
use stdc.Os.Listdir.Entry.{Known}
use stdc.Os.Listdir.Passing.{Passes, listdir-items}
use stdc.Os.Path.{
  basename_loop, basename, skip, scan, traversal_loop, traversal, last_slash, fit, parent_and_base,
  join, resolve_parent, resolve, canonical_path,
}
use stdc.Os.Path.Basename.{IsBase, basename-IsBase}
use stdc.Os.Path.Canonical.{Named, canonical_path-Named}
use stdc.Os.Path.Traversal.{components, all_dots, any, traversal-any}
use stdc.Os.Random.{
  srand, next_seed, fraction, ReadAnswer, got, fill_loop, descriptor, retry, open_loop,
  random_bytes,
}
use stdc.Os.Read.{
  ReadCalls, report, stream_size, range_length, read_bytes, read_length, read_stream, readfile,
}
use stdc.Os.Read.Range.{Balanced, readfile-Balanced, range, readfile-range}
use stdc.Os.Remove.{
  FolderCalls, Node, leaf, folder, Entries, nil, entry, removal, is_empty, keep, remove_child,
  close_directory, both, remove_node, trim, remove_root, os_remove,
}
use stdc.Os.Remove.Laws.{Opens, Permits, Removed, os_remove-Removed}
use stdc.Prelude.Blocks.{copy_into}
use stdc.Prelude.Int.{pos}
use stdc.Prelude.{
  ℕ, ◌+◌, ◌≡◌, ◌≢◌, ◌↔◌, ◌<◌, refl, true, false, List, [], ◌∷◌, Option, none, some, All, arith,
  length, ◌==◌, if◌then◌else◌,
}

program : Unit {0}
unfolding basename_loop basename skip scan traversal_loop traversal last_slash fit parent_and_base
    join resolve_parent resolve canonical_path components all_dots any next_seed fraction fill_loop
    open_loop random_bytes stream_size range_length read_bytes read_length read_stream readfile
    is_empty keep remove_child close_directory both remove_node trim remove_root os_remove copy_into
    prepared fopen_private_write mmap munmap lock_loop path_rwlock path_rwunlock is_dots inspect
    visit listdir_loop listdir Permits srand
program = tt

-- "a/bc"
abbrev path : List ℕ
path = b'a' ∷ b'/' ∷ b'b' ∷ b'c' ∷ []

abbrev last_part : List ℕ
last_part = b'b' ∷ b'c' ∷ []

-- "/r/bc"
abbrev resolved_path : List ℕ
resolved_path = b'/' ∷ b'r' ∷ b'/' ∷ b'b' ∷ b'c' ∷ []

basename_runs : basename path ≡ some (b'b' ∷ b'c' ∷ [])
unfolding program
basename_runs = refl

basename-IsBase_example :
    (basename path ≡ some last_part) ↔ (IsBase last_part path × (last_part ≢ []))
basename-IsBase_example = basename-IsBase path last_part

-- "a/../b" and "a/.b"
abbrev up : List ℕ
up = b'a' ∷ b'/' ∷ b'.' ∷ b'.' ∷ b'/' ∷ b'b' ∷ []

climbs_up : traversal up ≡ true
unfolding program
climbs_up = refl

stays : traversal (b'a' ∷ b'/' ∷ b'.' ∷ b'b' ∷ []) ≡ false
unfolding program
stays = refl

traversal-any_example : traversal up ≡ any (components up)
traversal-any_example = traversal-any up

-- A system in which only "a" has a name, "/r".
abbrev realpath : List ℕ → Option (List ℕ)
realpath [] = none
realpath (c ∷ []) = if c == b'a' then some (b'/' ∷ b'r' ∷ []) else none
realpath (c ∷ d ∷ p) = none

canonical_runs : canonical_path realpath true 9 path ≡ some resolved_path
unfolding program
canonical_runs = refl

canonical_path-Named_example : Named realpath path resolved_path × (length resolved_path < 9)
canonical_path-Named_example =
    canonical_path-Named realpath 9 path resolved_path true canonical_runs

abbrev one : ℕ
one = 1

abbrev two : ℕ
two = 2

abbrev source : List ReadAnswer
source = got 2 ∷ ReadAnswer.interrupted ∷ got 2 ∷ []

random_runs :
    random_bytes (retry ∷ descriptor ∷ []) source (4 ∷ 5 ∷ 6 ∷ 7 ∷ []) 3 (0 ∷ 0 ∷ 0 ∷ 0 ∷ []) 5
    ≡ record { status = some 0; buffer = 4 ∷ 5 ∷ 6 ∷ 0 ∷ []; descriptors = 5 }
unfolding program
random_runs = refl

random_bytes-Fills_example :
    Fills
      (4 ∷ 5 ∷ 6 ∷ 7 ∷ [])
      3
      0
      5
      (0 ∷ 0 ∷ 0 ∷ 0 ∷ [])
      (random_bytes (retry ∷ descriptor ∷ []) source (4 ∷ 5 ∷ 6 ∷ 7 ∷ []) 3 (0 ∷ 0 ∷ 0 ∷ 0 ∷ []) 5)
random_bytes-Fills_example =
    random_bytes-Fills (retry ∷ descriptor ∷ []) source (4 ∷ 5 ∷ 6 ∷ 7 ∷ []) 3 5
      (0 ∷ 0 ∷ 0 ∷ 0 ∷ [])

abbrev content : List ℕ
content = 1 ∷ 2 ∷ 3 ∷ 4 ∷ []

abbrev reads : ReadCalls
reads = record {
  opened = true;
  inspected = true;
  regular = true;
  size = 4;
  positioned = true;
  allocated = true;
  transferred = 100;
  erroneous = false;
  closed = true;
}

reads_part : readfile reads (pos 1) (pos 2) content ≡ report (some (2 ∷ 3 ∷ [])) 1 1 1 0
unfolding program
reads_part = refl

reads_none : readfile reads (pos 3) (pos 2) content ≡ report none 1 1 0 0
unfolding program
reads_none = refl

readfile-Balanced_example : Balanced (readfile reads (pos 1) (pos 2) content)
readfile-Balanced_example = readfile-Balanced reads (pos 1) (pos 2) content

readfile-range_example :
    (readfile reads (pos 1) (pos 9) content).result ≡ range (pos 1) (pos 9) content
readfile-range_example =
    readfile-range
      record {
        opened = refl;
        inspected = refl;
        regular = refl;
        sized = refl;
        positioned = refl;
        allocated = refl;
        transferred = omega arith;
        sound = refl;
        closed = refl;
        bounded = omega arith;
      }
      (pos 1) (pos 9)

abbrev good : FolderCalls
good = record {
  inspected = true;
  opened = true;
  same = true;
  streamed = true;
  closed = true;
  unlinked = true;
}

abbrev file : Node
file = leaf (record { inspected = true; unlinked = true })

abbrev tree : Entries
tree = entry (folder good (entry file nil)) (entry file nil)

removes : os_remove true true (folder good tree) ≡ removal false none 2 2
unfolding program
removes = refl

keeps_one :
    (os_remove true true
      (folder good (entry (leaf (record { inspected = true; unlinked = false })) nil))).failed
    ≡ true
unfolding program
keeps_one = refl

trims : trim (b'a' ∷ b'/' ∷ b'.' ∷ []) ≡ (b'a' ∷ [], false)
unfolding program
trims = refl

os_remove-Removed_example :
    ((os_remove false true (folder good tree)).failed ≡ false
      → Removed false (os_remove false true (folder good tree)).left)
    × ((os_remove false true (folder good tree)).closes
        ≡ (os_remove false true (folder good tree)).opens)
os_remove-Removed_example = os_remove-Removed false true (folder good tree)

opens : Opens good
opens = record { inspected = refl; opened = refl; same = refl; streamed = refl; closed = refl }

permits : Permits (folder good tree)
unfolding Permits
permits = (opens, (refl, ((opens, (refl, ((refl, refl), tt))), ((refl, refl), tt))))

abbrev open_calls : OpenCalls
open_calls = record {
  opened = true;
  inspected = true;
  regular = true;
  changed = true;
  truncated = true;
  wrapped = false;
}

abbrev old : File
old = record { content = 1 ∷ []; mode = 0; descriptors = 3 }

fopen_private_write_safe_example :
    (let (done, g) = fopen_private_write open_calls old in
      ((done ≡ true) ↔ (
        (open_calls.opened ≡ true)
        × ((open_calls.inspected ≡ true)
            × ((open_calls.regular ≡ true)
                × ((open_calls.changed ≡ true)
                    × ((open_calls.truncated ≡ true) × (open_calls.wrapped ≡ true)))))))
      × ((done ≡ true
            → (g.content ≡ []) × ((g.mode ≡ private_mode) × (g.descriptors ≡ old.descriptors + 1)))
          × ((done ≡ false → g.descriptors ≡ old.descriptors)
              × (open_calls.regular ≡ false → (g.content ≡ old.content) × (g.mode ≡ old.mode)))))
fopen_private_write_safe_example = fopen_private_write_safe open_calls old

abbrev held : Held
held = record { blocks = 1; descriptors = 2; mappings = 3 }

abbrev map_calls : MapCalls
map_calls = record { allocated = true; opened = true; mapped = false }

abbrev entries : List DirEntry
entries =
    record { name = b'.' ∷ []; found = true; kind = directory; size = 0 }
    ∷ record { name = b'a' ∷ []; found = true; kind = regular; size = 7 }
    ∷ record { name = b'l' ∷ []; found = true; kind = other; size = 1 }
    ∷ []

lists :
    listdir true true true 3 entries
    ≡ (1, record { name = b'a' ∷ []; folder = false; size = 7 } ∷ [])
unfolding program
lists = refl

listdir-items_example :
    Passes 3 entries (listdir true true true 3 entries).1
    × (((listdir true true true 3 entries).0 ≡ 0)
        ↔ ((true ≡ true) × ((true ≡ true) × All (Known 3) entries)))
listdir-items_example = listdir-items true true 3 entries
