-- ===== src/Os/Descriptor.antt =====
-- The functions of os.c that open a file and hand it over, and what they do with it when a later
-- call of the system fails.
use stdc.Prelude.{
  ℕ, ◌+◌, ◌-◌, ◌≡◌, ◌↔◌, Bool, true, false, ◌||◌, not, List, [], ◌∷◌, arith, if◌then◌else◌, Option,
  none, some,
}

-- A file, and how many descriptors of the program are open.
pub record File : Type 0 where
  pub content : List ℕ
  pub mode : ℕ
  pub descriptors : ℕ

-- `open`, `fstat`, `S_ISREG`, `fchmod`, `ftruncate` and `fdopen`.
pub record OpenCalls : Type 0 where
  pub opened : Bool
  pub inspected : Bool
  pub regular : Bool
  pub changed : Bool
  pub truncated : Bool
  pub wrapped : Bool

-- Reading and writing by the owner only.
abbrev pub private_mode : ℕ
private_mode = 0x180

-- What `fchmod` and `ftruncate`, which run as long as the tests before them succeed, leave of a file.
unfoldable pub prepared : OpenCalls → File → File
prepared c f =
    if not c.inspected || not c.regular || not c.changed
    then f
    else if not c.truncated
    then record f { mode = private_mode }
    else record f { mode = private_mode; content = [] }

-- `os_fopen_private_write` on a file that is there, or that `open` has made: whether a stream is
-- returned, and the file.
unfoldable pub fopen_private_write : OpenCalls → File → Bool × File
fopen_private_write c f =
    if not c.opened
    then (false, f)
    else (let g = prepared c (record f { descriptors = f.descriptors + 1 }) in
        if not c.inspected || not c.regular || not c.changed || not c.truncated || not c.wrapped
        then (false, record g { descriptors = g.descriptors - 1 })
        else (true, g))

-- `os_fopen_private_write` returns a stream exactly when every call succeeds and the file is a
-- regular one. Then the file is empty, open and private; else no descriptor stays open, and what is
-- not a regular file keeps its content and its mode.
pub fopen_private_write_safe :
    (c : OpenCalls) (f : File)
    → (let (done, g) = fopen_private_write c f in
        ((done ≡ true) ↔ (
          (c.opened ≡ true)
          × ((c.inspected ≡ true)
              × ((c.regular ≡ true)
                  × ((c.changed ≡ true) × ((c.truncated ≡ true) × (c.wrapped ≡ true)))))))
        × ((done ≡ true
              → (g.content ≡ []) × ((g.mode ≡ private_mode) × (g.descriptors ≡ f.descriptors + 1)))
            × ((done ≡ false → g.descriptors ≡ f.descriptors)
                × (c.regular ≡ false → (g.content ≡ f.content) × (g.mode ≡ f.mode)))))
unfolding fopen_private_write prepared
fopen_private_write_safe c f = ground arith

-- What a program holds of the system: blocks of memory, descriptors and mappings.
pub record Held : Type 0 where
  pub blocks : ℕ
  pub descriptors : ℕ
  pub mappings : ℕ

-- `malloc`, `open` and `mmap`.
pub record MapCalls : Type 0 where
  pub allocated : Bool
  pub opened : Bool
  pub mapped : Bool

pub record MapFile : Type 0 where
  pub size : ℕ

-- `os_mmap`, call by call.
unfoldable pub mmap : MapCalls → ℕ → Held → Option MapFile × Held
mmap c length h =
    if not c.allocated
    then (none, h)
    else (let h1 = record h { blocks = h.blocks + 1 } in
        if not c.opened
        then (none, record h1 { blocks = h1.blocks - 1 })
        else (let h2 = record h1 { descriptors = h1.descriptors + 1 } in
            if not c.mapped
            then (none, record h2 { descriptors = h2.descriptors - 1; blocks = h2.blocks - 1 })
            else (some (record { size = length }), record h2 { mappings = h2.mappings + 1 })))

-- `os_munmap`.
unfoldable pub munmap : Option MapFile → Held → Held
munmap none h = h
munmap (some f) h = record h {
  mappings = h.mappings - 1;
  descriptors = h.descriptors - 1;
  blocks = h.blocks - 1;
}

-- Whether or not `os_mmap` succeeds, `os_munmap` of its result gives back all that the two have taken
-- from the system; and where `os_mmap` fails it has given back everything itself.
pub munmap-mmap :
    (c : MapCalls) (length : ℕ) (h : Held)
    → (let (f, held) = mmap c length h in (munmap f held ≡ h) × (f ≡ none → held ≡ h))
unfolding mmap munmap
munmap-mmap c length h = ground arith

-- What a call of `flock` returns.
pub data LockAnswer : Type 0 where
  acquired interrupted refused : LockAnswer

-- Whether the call returned 0 or 1, if it has returned, whether `lock->file` is set, and how many
-- streams the program has open.
pub record Locked : Type 0 where
  pub status : Option ℕ
  pub file : Bool
  pub streams : ℕ

-- The loop of `os_path_rwlock`, on a stream that was opened.
unfoldable pub lock_loop : List LockAnswer → ℕ → Locked
lock_loop [] streams = record { status = none; file = false; streams = streams }
lock_loop (acquired ∷ answers) streams = record { status = some 0; file = true; streams = streams }
lock_loop (interrupted ∷ answers) streams = lock_loop answers streams
lock_loop (refused ∷ answers) streams = record {
  status = some 1;
  file = false;
  streams = streams - 1;
}

-- `os_path_rwlock` at a lock and a path that are there.
unfoldable pub path_rwlock : Bool → List LockAnswer → ℕ → Locked
path_rwlock opened answers streams =
    if not opened
    then record { status = some 1; file = false; streams = streams }
    else lock_loop answers (streams + 1)

-- `os_path_rwunlock` at a lock that is there.
unfoldable pub path_rwunlock : Locked → Locked
path_rwunlock l = record l { file = false; streams = if l.file then l.streams - 1 else l.streams }

lock_loop_lem :
    (answers : List LockAnswer) (streams status : ℕ)
    → (lock_loop answers (streams + 1)).status ≡ some status
    → (((lock_loop answers (streams + 1)).file ≡ true) ↔ (status ≡ 0))
      × ((path_rwunlock (lock_loop answers (streams + 1))).streams ≡ streams)
unfolding lock_loop path_rwunlock
lock_loop_lem [] streams status e = absurd (cc e)
lock_loop_lem (acquired ∷ answers) streams status e = ground arith
lock_loop_lem (interrupted ∷ answers) streams status e = lock_loop_lem answers streams status e
lock_loop_lem (refused ∷ answers) streams status e = ground arith

-- When `os_path_rwlock` has returned, the lock has its file exactly if 0 was returned; and
-- `os_path_rwunlock` then leaves as many streams open as there were before.
pub path_rwunlock-path_rwlock :
    (opened : Bool) (answers : List LockAnswer) (streams status : ℕ)
    → (path_rwlock opened answers streams).status ≡ some status
    → (((path_rwlock opened answers streams).file ≡ true) ↔ (status ≡ 0))
      × ((path_rwunlock (path_rwlock opened answers streams)).streams ≡ streams)
unfolding path_rwlock
path_rwunlock-path_rwlock true answers streams status e = lock_loop_lem answers streams status e
path_rwunlock-path_rwlock false answers streams status e = unfold path_rwunlock in ground arith
