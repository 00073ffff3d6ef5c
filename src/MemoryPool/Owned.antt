-- ===== src/MemoryPool/Owned.antt =====
-- The whole memory pool of memorypool.c: every free block is in the list of its size, what the program
-- has is in none, and no two blocks overlap.
use native.Mathlib.Nat.{mul-lt-mul_of_pos_right}
use stdc.MemoryPool.Carve.{mark_blocks, carve-IsFree, carve-others, carve-Headers}
use stdc.MemoryPool.Free.{IsFree, IsFree-mark, IsFree-push, IsFree-pop}
use stdc.MemoryPool.Owners.{
  nobody, chunk, idle, live, Owners, mark, mark-other, tag, extent, Headers, Headers-mark,
  Headers-live,
}
use stdc.MemoryPool.Space.{Apart, Clear, Clear-nobody, Apart-mark, Clear-mark, Apart-swap}
use stdc.MemoryPool.{
  Meta, MemoryPool, manager, write, class_of, carve, no_meta, refill, pop_block, push_block,
}
use stdc.Prelude.{
  ℕ, refl, ◌+◌, ◌*◌, ◌≤◌, ◌<◌, ◌≡◌, ◌≢◌, sym, ap, ◌∙◌, subst, inl, inr, none, some, List, arith,
  ◌==◌, Bool-cases, get_or, set, length, length-set, get_or-set_self, get_or-set_ne,
}

abbrev meta : MemoryPool → ℕ → Meta
meta pool i = get_or pool.memory i no_meta

pub record Owned (pool : MemoryPool) (own : Owners) : Type 0 where
  pub eight : length pool.memory ≡ 8
  pub sized : (i : ℕ) → i < 8 → (get_or pool.memory i no_meta).block_size ≡ extent (idle i)
  pub filled : (i : ℕ) → i < 8 → 0 < (get_or pool.memory i no_meta).block_per_chunk
  pub lists : (i : ℕ) → i < 8 → IsFree pool.heap own i (get_or pool.memory i no_meta).free_list
  pub headers : Headers pool.heap own
  pub apart : Apart own

-- One list changes.
changed :
    (memory : List Meta) (i : ℕ) (m : Meta) (P : ℕ → Meta → Type 0)
    → i < length memory
    → P i m
    → ((j : ℕ) → j ≢ i → j < 8 → P j (get_or memory j no_meta))
    → (j : ℕ) → j < 8
    → P j (get_or (set memory i m) j no_meta)
changed memory i m P h here others j l = elim (Bool-cases (j == i)) [
  | inl same ↦ let e : j ≡ i = ground arith in rw (e, get_or-set_self memory i m no_meta h) here
  | inr other ↦
      let ne : j ≢ i = ground arith in
      subst (P j) (sym (get_or-set_ne memory i j m no_meta (λ e. ne (sym e)))) (others j ne l)
]

free-ne : {i j : ℕ} → j ≢ i → idle i ≢ idle j
free-ne h e = ground arith

pub push-Owned :
    {pool : MemoryPool} {own : Owners} (i x : ℕ)
    → i < 8
    → own x ≡ live i
    → Owned pool own
    → Owned (push_block pool i x) (mark own x (idle i))
unfolding push_block extent tag
push-Owned {pool} {own} i x h e o =
    let ne : (j : ℕ) → own x ≢ idle j = λ j f. absurd (ground arith) in
    record {
      eight = length-set _ i _ ∙ o.eight;
      sized =
          changed pool.memory i _ (λ j m. m.block_size ≡ extent (idle j)) (omega (arith, o.eight))
            (o.sized i h) (λ j n l. o.sized j l);
      filled =
          changed pool.memory i _ (λ j m. 0 < m.block_per_chunk) (omega (arith, o.eight))
            (o.filled i h) (λ j n l. o.filled j l);
      lists =
          changed pool.memory i _
            (λ j m.
              IsFree (write pool.heap x (get_or pool.memory i no_meta).free_list)
                (mark own x (idle i)) j m.free_list)
            (omega (arith, o.eight))
            (IsFree-push x (o.headers.positive x i (ap tag e)) (ne i) (o.lists i h))
            (λ j n l. IsFree-mark x _ (idle i) (ne j) (free-ne n) (o.lists j l));
      headers = Headers-mark x _ (idle i) refl o.headers;
      apart = Apart-swap own x (idle i) (λ f. absurd (ground arith)) (sym (ap extent e)) o.apart;
    }

pub pop-Owned :
    {pool : MemoryPool} {own : Owners} (i : ℕ)
    → i < 8
    → (get_or pool.memory i no_meta).free_list ≢ 0
    → Owned pool own
    → (own (get_or pool.memory i no_meta).free_list ≡ idle i)
      × Owned (pop_block pool i).1 (mark own (get_or pool.memory i no_meta).free_list (live i))
unfolding pop_block extent tag
pop-Owned {pool} {own} i h n o =
    let x = (get_or pool.memory i no_meta).free_list in
    let (positive, was, rest) =
      IsFree-pop i (live i) n (λ e. absurd (ground arith)) (o.lists i h) in
    (
      was,
      record {
        eight = length-set _ i _ ∙ o.eight;
        sized =
            changed pool.memory i _ (λ j m. m.block_size ≡ extent (idle j)) (omega (arith, o.eight))
              (o.sized i h) (λ j n l. o.sized j l);
        filled =
            changed pool.memory i _ (λ j m. 0 < m.block_per_chunk) (omega (arith, o.eight))
              (o.filled i h) (λ j n l. o.filled j l);
        lists =
            changed pool.memory i _
              (λ j m. IsFree (write pool.heap x i) (mark own x (live i)) j m.free_list)
              (omega (arith, o.eight)) rest
              (λ j n l.
                IsFree-mark x i (live i) (λ f. free-ne n (sym was ∙ f)) (λ e. absurd (ground arith))
                  (o.lists j l));
        headers = Headers-live x i (live i) refl positive o.headers;
        apart =
            Apart-swap own x (live i) (λ f. absurd (ground arith)) (sym (ap extent was)) o.apart;
      },
    )

-- `malloc` returned memory that nothing of the pool is in.
unfoldable pub Fresh : Owners → ℕ → ℕ → Type 0
Fresh own a bytes = Clear own a (a + bytes)

-- What `memorypool_alloc` asks `malloc` for.
unfoldable pub chunk_bytes : MemoryPool → ℕ → ℕ
chunk_bytes pool i =
    16 + (get_or pool.memory i no_meta).block_per_chunk * (get_or pool.memory i no_meta).block_size

unfoldable pub request : MemoryPool → ℕ → ℕ
request pool size = elim (class_of size manager 0) [
  | none ↦ 16 + size
  | some i ↦ chunk_bytes pool i
]

pub refill-Owned :
    {pool : MemoryPool} {own : Owners} (i a : ℕ)
    → i < 8
    → 0 < a
    → Fresh own a (chunk_bytes pool i)
    → Owned pool own
    → (own' : Owners) × Owned (refill pool i a) own'
      × ((x t : ℕ) → tag (own x) ≡ some t → own' x ≡ own x)
unfolding refill Fresh chunk_bytes
refill-Owned {pool} {own} i a h positive fresh o =
    let p = get_or pool.memory i no_meta in
    let start = a + 16 in
    let size = p.block_size in
    let n = p.block_per_chunk in
    let to = a + (16 + n * size) in
    let own1 = mark own a chunk in
    let blank : tag chunk ≡ none = unfold tag in refl in
    let nothing : tag nobody ≡ none = unfold tag in refl in
    let head : extent chunk ≡ 16 = unfold extent in refl in
    let empty : own a ≡ nobody = Clear-nobody own a to a fresh (omega arith) (omega arith) in
    let positive_size : 0 < size =
      subst (λ t. 0 < t) (sym (o.sized i h)) (unfold extent in omega arith) in
    let begins : a + extent chunk ≡ start + 0 * size = omega (arith, head) in
    let clear1 : Clear own1 (start + 0 * size) to =
      subst (λ t. Clear own1 t to) begins (Clear-mark own a to chunk fresh) in
    let blocks : (m : ℕ) → 0 ≤ m → m < 0 + n → own1 (start + m * size) ≡ nobody = λ m l r.
      let inside = mul-lt-mul_of_pos_right {m = m} {n = n} {k = size} (omega arith) positive_size in
      Clear-nobody own1 (start + 0 * size) to (start + m * size) clear1 (omega arith)
        (omega (arith, inside)) in
    let free1 : (j : ℕ)
        → j < 8
        → IsFree (write pool.heap a p.chunk_list) own1 j (get_or pool.memory j no_meta).free_list =
      λ j l.
        IsFree-mark a p.chunk_list chunk (λ e. absurd (ground arith)) (λ e. absurd (ground arith))
          (o.lists j l) in
    let (headers, apart, kept) =
      carve-Headers i n 0 start size p.free_list to (o.sized i h) (omega arith) clear1
        (Apart-mark own a to chunk fresh (omega (arith, head)) o.apart)
        (Headers-mark a p.chunk_list chunk blank o.headers) in
    (
      mark_blocks n 0 start size i own1,
      record {
        eight = length-set _ i _ ∙ o.eight;
        sized =
            changed pool.memory i _ (λ j m. m.block_size ≡ extent (idle j)) (omega (arith, o.eight))
              (o.sized i h) (λ j n l. o.sized j l);
        filled =
            changed pool.memory i _ (λ j m. 0 < m.block_per_chunk) (omega (arith, o.eight))
              (o.filled i h) (λ j n l. o.filled j l);
        lists =
            changed pool.memory i _
              (λ j m.
                IsFree (carve n 0 start size (write pool.heap a p.chunk_list) p.free_list).0
                  (mark_blocks n 0 start size i own1) j m.free_list)
              (omega (arith, o.eight))
              (carve-IsFree n 0 start size (omega arith) positive_size blocks (free1 i h))
              (λ j ne l.
                carve-others i j n 0 start size p.free_list ne positive_size blocks (free1 j l));
        headers = headers;
        apart = apart;
      },
      λ x t e.
          let other : x ≢ a =
            λ same. cc (sym e ∙ ap (λ z. tag (own z)) same ∙ ap tag empty ∙ nothing) in
          let still = mark-other own a chunk x other in kept x t (ap tag still ∙ e) ∙ still,
    )
