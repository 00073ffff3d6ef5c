-- ===== src/MemoryPool/Owners.antt =====
-- Who has which part of the memory of memorypool.c.
use stdc.MemoryPool.{Heap, write, manager}
use stdc.Prelude.{
  ℕ, ◌+◌, ◌<◌, ◌≡◌, ◌≢◌, sym, ap, ◌∙◌, inl, inr, Option, none, some, arith, ◌==◌, if◌then◌else◌,
  Bool-cases, get_or,
}

-- Who has what begins at an address: nobody, the header of a chunk, the free list of a size, or the
-- program, as a block of a size or as memory of its own.
pub data Owner : Type 0 where
  nobody : Owner
  chunk : Owner
  idle : ℕ → Owner
  live : ℕ → Owner
  large : ℕ → Owner

abbrev pub Owners : Type 0
Owners = ℕ → Owner

unfoldable pub mark : Owners → ℕ → Owner → Owners
mark own a o x = if x == a then o else own x

pub mark_self : (own : Owners) (a : ℕ) (o : Owner) → mark own a o a ≡ o
unfolding mark
mark_self own a o = ground arith

pub mark-other : (own : Owners) (a : ℕ) (o : Owner) (x : ℕ) → x ≢ a → mark own a o x ≡ own x
unfolding mark
mark-other own a o x h = ground arith

pub write_self : (heap : Heap) (a v : ℕ) → write heap a v a ≡ v
unfolding write
write_self heap a v = ground arith

pub write-other : (heap : Heap) (a v x : ℕ) → x ≢ a → write heap a v x ≡ heap x
unfolding write
write-other heap a v x h = ground arith

-- The header of what the program has.
unfoldable pub tag : Owner → Option ℕ
tag nobody = none
tag chunk = none
tag (idle i) = none
tag (live i) = some i
tag (large size) = some 0xff

-- The number of bytes, each with a header of 16.
unfoldable pub extent : Owner → ℕ
extent nobody = 0
extent chunk = 16
extent (idle i) = 16 + get_or manager i 0
extent (live i) = 16 + get_or manager i 0
extent (large size) = 16 + size

-- All that the program has carries its header.
pub record Headers (heap : Heap) (own : Owners) : Type 0 where
  pub header : (x t : ℕ) → tag (own x) ≡ some t → heap x ≡ t
  pub positive : (x t : ℕ) → tag (own x) ≡ some t → 0 < x

tag-ne :
    (own : Owners) (a : ℕ) (o : Owner) (x t : ℕ)
    → tag o ≡ none
    → tag (mark own a o x) ≡ some t
    → (x ≢ a) × (tag (own x) ≡ some t)
tag-ne own a o x t n e =
    let other : x ≢ a =
      λ h. cc (sym n ∙ ap tag (sym (mark_self own a o) ∙ ap (mark own a o) (sym h)) ∙ e) in
    (other, ap tag (sym (mark-other own a o x other)) ∙ e)

pub Headers-mark :
    {heap : Heap} {own : Owners} (a v : ℕ) (o : Owner)
    → tag o ≡ none
    → Headers heap own
    → Headers (write heap a v) (mark own a o)
Headers-mark {heap} {own} a v o n h = record {
  header = λ x t e.
      let (other, was) = tag-ne own a o x t n e in write-other heap a v x other ∙ h.header x t was;
  positive = λ x t e. h.positive x t (tag-ne own a o x t n e).1;
}

pub Headers-live :
    {heap : Heap} {own : Owners} (a v : ℕ) (o : Owner)
    → tag o ≡ some v
    → 0 < a
    → Headers heap own
    → Headers (write heap a v) (mark own a o)
Headers-live {heap} {own} a v o e b h = record {
  header = λ x t f. elim (Bool-cases (x == a)) [
    | inl same ↦
        let q : x ≡ a = ground arith in
        let g : some v ≡ some t =
          sym e ∙ ap tag (sym (mark_self own a o) ∙ ap (mark own a o) (sym q)) ∙ f in
        ap (write heap a v) q ∙ write_self heap a v ∙ ground (arith, g)
    | inr other ↦
        let q : x ≢ a = ground arith in
        write-other heap a v x q ∙ h.header x t (ap tag (sym (mark-other own a o x q)) ∙ f)
  ];
  positive = λ x t f. elim (Bool-cases (x == a)) [
    | inl same ↦ ground (arith, b)
    | inr other ↦
        let q : x ≢ a = ground arith in h.positive x t (ap tag (sym (mark-other own a o x q)) ∙ f)
  ];
}
