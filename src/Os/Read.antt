-- ===== src/Os/Read.antt =====
-- `os_readfile` and `os_stream_size`.
pub mod Range
use stdc.Prelude.Int.{ℤ, pos, negsuc}
use stdc.Prelude.{
  ℕ, ◌+◌, ◌-◌, ◌*◌, ◌^◌, min, Bool, true, false, ◌&&◌, ◌||◌, not, List, Option, none, some, ltb,
  ◌==◌, if◌then◌else◌, length, take, drop,
}

-- What the system's calls return: `fopen`, `fstat`, whether the file is a regular one and the size
-- that it reports, `fseek`, `malloc`, how many bytes `fread` moves at most, `ferror` and `fclose`.
pub record ReadCalls : Type 0 where
  pub opened : Bool
  pub inspected : Bool
  pub regular : Bool
  pub size : ℕ
  pub positioned : Bool
  pub allocated : Bool
  pub transferred : ℕ
  pub erroneous : Bool
  pub closed : Bool

unfoldable pub stream_size : ReadCalls → ℤ
stream_size c = if not c.inspected || not c.regular then negsuc 0 else pos c.size

-- What a call did: its result, and how often it called `fopen` with success, `fclose`, `malloc` with
-- success and `free`.
pub record Report : Type 0 where
  pub result : Option (List ℕ)
  pub opens : ℕ
  pub closes : ℕ
  pub mallocs : ℕ
  pub frees : ℕ

abbrev pub report : Option (List ℕ) → ℕ → ℕ → ℕ → ℕ → Report
report result opens closes mallocs frees = record {
  result = result;
  opens = opens;
  closes = closes;
  mallocs = mallocs;
  frees = frees;
}

-- `length` behind the branches on the range, or nothing where the code gives up. A part of the file
-- ends with the byte at `range_end`.
unfoldable pub range_length : ReadCalls → ℤ → ℤ → ℕ → Option ℕ
range_length c (pos s) (negsuc e) file_size = if s == 0 && e == 0 then some file_size else none
range_length c (negsuc s) range_end file_size = none
range_length c (pos s) (pos e) file_size =
    if ltb e s || not c.positioned
    then none
    else (let requested = e - s + 1 in
        let available = if ltb s file_size then file_size - s else 0 in
        some (if ltb requested available then requested else available))

-- Where `fread` begins.
abbrev pub position : ℤ → ℕ
position (pos s) = s
position (negsuc s) = 0

-- From `malloc` on.
unfoldable pub read_bytes : ReadCalls → ℕ → ℕ → List ℕ → Report
read_bytes c start n content =
    let buffer = take (min c.transferred n) (drop start content) in
    if not c.allocated
    then report none 1 1 0 0
    else if ltb (length buffer) n && c.erroneous
    then report none 1 1 1 1
    else if not c.closed
    then report none 1 1 1 1
    else report (some buffer) 1 1 1 0

unfoldable pub read_length : ReadCalls → ℕ → Option ℕ → List ℕ → Report
read_length c start none content = report none 1 1 0 0
read_length c start (some n) content =
    if ltb (2 ^ 64 - 1 - 1) n then report none 1 1 0 0 else read_bytes c start n content

unfoldable pub read_stream : ReadCalls → ℤ → ℤ → ℤ → List ℕ → Report
read_stream c range_start range_end (negsuc n) content = report none 1 1 0 0
read_stream c range_start range_end (pos file_size) content =
    read_length c (position range_start) (range_length c range_start range_end file_size) content

-- `os_readfile` at a path that is there and not empty, of a file with these bytes.
unfoldable pub readfile : ReadCalls → ℤ → ℤ → List ℕ → Report
readfile c range_start range_end content =
    if not c.opened
    then report none 0 0 0 0
    else read_stream c range_start range_end (stream_size c) content
