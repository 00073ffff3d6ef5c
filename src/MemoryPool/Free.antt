-- ===== src/MemoryPool/Free.antt =====
-- One list of free blocks in memory: it is linked through the blocks, no two of its blocks are the
-- same, and it has every free block of its size.
use stdc.MemoryPool.{Heap, write}
use stdc.MemoryPool.Owners.{
  Owner, nobody, idle, Owners, mark, mark_self, mark-other, write_self, write-other,
}
use stdc.Prelude.{
  ℕ, ◌<◌, ◌≡◌, ◌≢◌, refl, sym, ap, ◌∙◌, subst, List, [], ◌∷◌, arith, ◌==◌, All, ◌⊎◌, inl, inr,
  Bool-cases,
}

abbrev pub Links : Heap → ℕ → List ℕ → Type 0
Links heap p [] = p ≡ 0
Links heap p (x ∷ xs) = (p ≡ x) × (0 < x) × Links heap (heap x) xs

abbrev pub Distinct : List ℕ → Type 0
Distinct [] = Unit
Distinct (x ∷ xs) = All (λ y. y ≢ x) xs × Distinct xs

abbrev pub Among : ℕ → List ℕ → Type 0
Among x [] = ⊥
Among x (y ∷ ys) = (x ≡ y) ⊎ Among x ys

pub record IsFree (heap : Heap) (own : Owners) (i p : ℕ) : Type 0 where
  pub blocks : List ℕ
  pub linked : Links heap p blocks
  pub apart : Distinct blocks
  pub owned : All (λ x. own x ≡ idle i) blocks
  pub every : (x : ℕ) → own x ≡ idle i → Among x blocks

Links-write :
    (heap : Heap) (a v p : ℕ) (xs : List ℕ)
    → All (λ y. y ≢ a) xs
    → Links heap p xs
    → Links (write heap a v) p xs
Links-write heap a v p [] n l = l
Links-write heap a v p (x ∷ xs) n l = (
  l.0,
  l.1,
  Links-write heap a v (write heap a v x) xs n.1
      (subst (λ t. Links heap t xs) (sym (write-other heap a v x n.0)) l.2),
)

All-map : {P Q : ℕ → Type 0} (xs : List ℕ) → ((x : ℕ) → P x → Q x) → All P xs → All Q xs
All-map [] f a = tt
All-map (x ∷ xs) f a = (f x a.0, All-map xs f a.1)

All-pair :
    {P Q R : ℕ → Type 0} (xs : List ℕ)
    → ((x : ℕ) → P x → Q x → R x)
    → All P xs
    → All Q xs
    → All R xs
All-pair [] f a b = tt
All-pair (x ∷ xs) f a b = (f x a.0 b.0, All-pair xs f a.1 b.1)

pub nobody-ne-idle : {i : ℕ} → nobody ≢ idle i
nobody-ne-idle e = absurd (ground arith)

owned-ne : (own : Owners) (i a : ℕ) → own a ≢ idle i → (x : ℕ) → own x ≡ idle i → x ≢ a
owned-ne own i a n x e h = n (ap own (sym h) ∙ e)

-- A write elsewhere leaves the list as it is.
pub IsFree-frame :
    {heap : Heap} {own : Owners} {i p : ℕ} (own' : Owners) (a v : ℕ)
    → own a ≢ idle i
    → ((x : ℕ) → own x ≡ idle i → own' x ≡ idle i)
    → ((x : ℕ) → own' x ≡ idle i → own x ≡ idle i)
    → IsFree heap own i p
    → IsFree (write heap a v) own' i p
IsFree-frame {heap} {own} {i} {p} own' a v n keep back f = record {
  blocks = f.blocks;
  linked = Links-write heap a v p f.blocks (All-map f.blocks (owned-ne own i a n) f.owned) f.linked;
  apart = f.apart;
  owned = All-map f.blocks keep f.owned;
  every = λ x e. f.every x (back x e);
}

-- A block that is in no list goes to the front.
pub IsFree-push :
    {heap : Heap} {own : Owners} {i p : ℕ} (x : ℕ)
    → 0 < x
    → own x ≢ idle i
    → IsFree heap own i p
    → IsFree (write heap x p) (mark own x (idle i)) i x
IsFree-push {heap} {own} {i} {p} x positive n f =
    let others = All-map f.blocks (owned-ne own i x n) f.owned in
    record {
      blocks = x ∷ f.blocks;
      linked = (
        refl,
        positive,
        subst (λ t. Links (write heap x p) t f.blocks) (sym (write_self heap x p))
            (Links-write heap x p p f.blocks others f.linked),
      );
      apart = (others, f.apart);
      owned = (
        mark_self own x (idle i),
        All-map f.blocks (λ y e. mark-other own x (idle i) y (owned-ne own i x n y e) ∙ e) f.owned,
      );
      every = λ y e. elim (Bool-cases (y == x)) [
        | inl same ↦ inl (ground arith)
        | inr other ↦
            let ne : y ≢ x = ground arith in
            inr (f.every y (sym (mark-other own x (idle i) y ne) ∙ e))
      ];
    }

-- An address that a mark for somebody else leaves with a list.
unmarked :
    (own : Owners) (a : ℕ) (o : Owner) (i x : ℕ)
    → o ≢ idle i
    → mark own a o x ≡ idle i
    → (x ≢ a) × (own x ≡ idle i)
unmarked own a o i x n e =
    let other : x ≢ a = λ h. n (sym (mark_self own a o) ∙ ap (mark own a o) (sym h) ∙ e) in
    (other, sym (mark-other own a o x other) ∙ e)

pop-Links :
    (heap : Heap) (own : Owners) (i p v : ℕ) (o : Owner) (xs : List ℕ)
    → p ≢ 0
    → Links heap p xs
    → Distinct xs
    → All (λ x. own x ≡ idle i) xs
    → ((x : ℕ) → own x ≡ idle i → Among x xs)
    → o ≢ idle i
    → (0 < p) × (own p ≡ idle i) × IsFree (write heap p v) (mark own p o) i (heap p)
pop-Links heap own i p v o [] h l d a all ne = absurd (h l)
pop-Links heap own i p v o (x ∷ xs) h l d a all ne =
    let e : p ≡ x = l.0 in
    (
      omega (arith, l.1),
      ap own e ∙ a.0,
      subst (λ t. IsFree (write heap t v) (mark own t o) i (heap t)) (sym e)
          (record {
            blocks = xs;
            linked = Links-write heap x v (heap x) xs d.0 l.2;
            apart = d.1;
            owned = All-pair xs (λ y n e. mark-other own x o y n ∙ e) d.0 a.1;
            every = λ y e'.
                let (other, was) = unmarked own x o i y ne e' in
                elim (all y was) [ inl same ↦ absurd (other same) | inr later ↦ later ];
          }),
    )

-- The first block leaves the list, and its word may hold anything then.
pub IsFree-pop :
    {heap : Heap} {own : Owners} {i p : ℕ} (v : ℕ) (o : Owner)
    → p ≢ 0
    → o ≢ idle i
    → IsFree heap own i p
    → (0 < p) × (own p ≡ idle i) × IsFree (write heap p v) (mark own p o) i (heap p)
IsFree-pop {heap} {own} {i} {p} v o h ne f =
    pop-Links heap own i p v o f.blocks h f.linked f.apart f.owned f.every ne

-- A change of an address that the list does not have.
pub IsFree-mark :
    {heap : Heap} {own : Owners} {i p : ℕ} (a v : ℕ) (o : Owner)
    → own a ≢ idle i
    → o ≢ idle i
    → IsFree heap own i p
    → IsFree (write heap a v) (mark own a o) i p
IsFree-mark {heap} {own} {i} a v o n ne f =
    IsFree-frame (mark own a o) a v n (λ x e. mark-other own a o x (owned-ne own i a n x e) ∙ e)
      (λ x e. (unmarked own a o i x ne e).1) f
