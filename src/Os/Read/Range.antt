-- ===== src/Os/Read/Range.antt =====
-- Which bytes `os_readfile` returns, and what it gives back.
use stdc.Os.Read.{
  ReadCalls, Report, stream_size, range_length, position, read_bytes, read_length, read_stream,
  readfile,
}
use stdc.Prelude.Int.{ℤ, pos, negsuc}
use stdc.Prelude.{
  ℕ, ◌+◌, ◌-◌, ◌^◌, ◌≤◌, ◌<◌, ◌≡◌, refl, sym, ap, ap₂, ◌∙◌, inl, inr, min, true, false, ◌&&◌, List,
  Option, none, some, arith, ltb, ◌==◌, if◌then◌else◌, length, take, drop, length-drop, take-all,
  Bool-cases,
}

-- Every stream that was opened is closed, and the buffer stays allocated exactly if it is returned.
pub record Balanced (r : Report) : Type 0 where
  pub streams : r.closes ≡ r.opens
  pub kept : (bytes : List ℕ) → r.result ≡ some bytes → r.mallocs ≡ r.frees + 1
  pub dropped : r.result ≡ none → r.mallocs ≡ r.frees

read_bytes-Balanced :
    (c : ReadCalls) (start n : ℕ) (content : List ℕ) → Balanced (read_bytes c start n content)
unfolding read_bytes
read_bytes-Balanced c start n content = ground arith

read_length-Balanced :
    (c : ReadCalls) (start : ℕ) (n : Option ℕ) (content : List ℕ)
    → Balanced (read_length c start n content)
unfolding read_length
read_length-Balanced c start none content = ground arith
read_length-Balanced c start (some n) content =
    ground (arith, read_bytes-Balanced c start n content)

read_stream-Balanced :
    (c : ReadCalls) (s e size : ℤ) (content : List ℕ) → Balanced (read_stream c s e size content)
unfolding read_stream
read_stream-Balanced c s e (negsuc n) content = ground arith
read_stream-Balanced c s e (pos n) content =
    read_length-Balanced c (position s) (range_length c s e n) content

-- On every path, also where a call of the system fails, `os_readfile` closes the file that it has
-- opened, and frees its buffer unless it returns it.
pub readfile-Balanced :
    (c : ReadCalls) (range_start range_end : ℤ) (content : List ℕ)
    → Balanced (readfile c range_start range_end content)
unfolding readfile
readfile-Balanced c s e content = ground (arith, read_stream-Balanced c s e (stream_size c) content)

-- All calls succeed, the size is that of the content, and all of it can be read.
pub record Succeeds (c : ReadCalls) (content : List ℕ) : Type 0 where
  pub opened : c.opened ≡ true
  pub inspected : c.inspected ≡ true
  pub regular : c.regular ≡ true
  pub sized : c.size ≡ length content
  pub positioned : c.positioned ≡ true
  pub allocated : c.allocated ≡ true
  pub transferred : length content ≤ c.transferred
  pub sound : c.erroneous ≡ false
  pub closed : c.closed ≡ true
  pub bounded : length content < 2 ^ 63

-- The bytes that a range names: all of them for 0 and -1, those from the first position to the second
-- for two positions in order, and else none.
pub range : ℤ → ℤ → List ℕ → Option (List ℕ)
range (pos s) (pos e) content = if ltb e s then none else some (take (e - s + 1) (drop s content))
range (pos s) (negsuc e) content = if s == 0 && e == 0 then some content else none
range (negsuc s) e content = none

take-cap : (k : ℕ) (xs : List ℕ) → take (if ltb k (length xs) then k else length xs) xs ≡ take k xs
take-cap k xs = elim (Bool-cases (ltb k (length xs))) [
  | inl few ↦ rw few refl
  | inr all ↦ rw all (take-all (length xs) xs (omega arith) ∙ sym (take-all k xs (ground arith)))
]

module _ {c : ReadCalls} {content : List ℕ} (g : Succeeds c content) where
  read_length-range :
      (start n : ℕ)
      → n ≤ length content
      → (read_length c start (some n) content).result ≡ some (take n (drop start content))
  unfolding read_length read_bytes
  read_length-range start n h =
      let all : min c.transferred n ≡ n = omega (arith, g.transferred) in
      ground (arith, all, g.allocated, g.sound, g.closed, g.bounded)

  readfile_succeeds :
      (s e : ℤ)
      → readfile c s e content
        ≡ read_length c (position s) (range_length c s e (length content)) content
  unfolding readfile read_stream stream_size
  readfile_succeeds s e = simp (g.opened, g.inspected, g.regular, g.sized)

  part_length :
      (s e : ℕ)
      → ltb e s ≡ false
      → range_length c (pos s) (pos e) (length content)
        ≡ some (
            if ltb (e - s + 1) (length (drop s content))
            then e - s + 1
            else length (drop s content))
  unfolding range_length
  part_length s e h =
      let available : (if ltb s (length content) then length content - s else 0)
          ≡ length (drop s content) =
        ground (arith, length-drop s content) in
      simp (h, g.positioned, available)

  wrong_length : (s e : ℕ) → ltb e s ≡ true → range_length c (pos s) (pos e) (length content) ≡ none
  unfolding range_length
  wrong_length s e h = simp h

  whole_length :
      (s e : ℕ)
      → (s == 0 && e == 0) ≡ true
      → range_length c (pos s) (negsuc e) (length content) ≡ some (length content)
  unfolding range_length
  whole_length s e h = simp h

  no_length :
      (s e : ℕ)
      → (s == 0 && e == 0) ≡ false
      → range_length c (pos s) (negsuc e) (length content) ≡ none
  unfolding range_length
  no_length s e h = simp h

  read_nothing : (start : ℕ) → (read_length c start none content).result ≡ none
  unfolding read_length
  read_nothing start = refl

  -- If every call succeeds, `os_readfile` returns the bytes that the range names, those of them that
  -- the file has, and a null pointer if the range names none.
  pub readfile-range :
      (range_start range_end : ℤ)
      → (readfile c range_start range_end content).result ≡ range range_start range_end content
  unfolding range
  readfile-range (negsuc s) e =
      ap (λ r. r.result) (readfile_succeeds (negsuc s) e)
      ∙ (unfold range_length read_length in refl)
  readfile-range (pos s) (negsuc e) =
      ap (λ r. r.result) (readfile_succeeds (pos s) (negsuc e))
      ∙ elim (Bool-cases (s == 0 && e == 0)) [
        | inr other ↦
            rw other
              (ap (λ n. (read_length c s n content).result) (no_length s e other) ∙ read_nothing s)
        | inl all ↦
            let start : s ≡ 0 = ground arith in
            rw all (
              ap₂ (λ t n. (read_length c t n content).result) start (whole_length s e all)
              ∙ read_length-range 0 (length content) (omega arith)
              ∙ ap some (take-all (length content) content (omega arith)))
      ]
  readfile-range (pos s) (pos e) =
      ap (λ r. r.result) (readfile_succeeds (pos s) (pos e)) ∙ elim (Bool-cases (ltb e s)) [
        | inl wrong ↦
            rw wrong (
              ap (λ n. (read_length c s n content).result) (wrong_length s e wrong)
              ∙ read_nothing s)
        | inr right ↦
            let d = drop s content in
            let k = e - s + 1 in
            rw right (
              ap (λ n. (read_length c s n content).result) (part_length s e right)
              ∙ read_length-range s (if ltb k (length d) then k else length d)
                  (ground (arith, length-drop s content))
              ∙ ap some (take-cap k d))
      ]
