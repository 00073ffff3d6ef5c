-- ===== src/Os/Listdir/Passing.antt =====
-- What `os_listdir` passes to the callback, and its status.
use stdc.Prelude.{
  ℕ, ◌≡◌, ◌↔◌, refl, sym, ◌∙◌, ◌⊎◌, inl, inr, Bool, true, false, ◌&&◌, List, [], ◌∷◌, ◌++◌, arith,
  All, Option, none, some, if◌then◌else◌, Bool-cases, Option-cases, subst,
}
use mathlib.Core.List.{append-nil, append_assoc}
use stdc.Os.Listdir.{DirEntry, Item, is_dots, inspect, visit, listdir_loop, listdir}
use stdc.Os.Listdir.Entry.{
  Dots, Gets, Known, is_dots-Dots, Dots-is_dots, not-Dots, inspect-Gets, Gets-inspect,
}

-- What is to be passed on for the entries of a directory, in order.
pub data Passes (n : ℕ) : List DirEntry → List Item → Type 0 where
  end : Passes n [] []
  dots :
      {entries : List DirEntry} {items : List Item} (e : DirEntry)
      → Dots e.name
      → Passes n entries items
      → Passes n (e ∷ entries) items
  passed :
      {entries : List DirEntry} {items : List Item} (e : DirEntry) (item : Item)
      → ¬ Dots e.name
      → Gets n e item
      → Passes n entries items
      → Passes n (e ∷ entries) (item ∷ items)
  left :
      {entries : List DirEntry} {items : List Item} (e : DirEntry)
      → ¬ Dots e.name
      → ((item : Item) → ¬ Gets n e item)
      → Passes n entries items
      → Passes n (e ∷ entries) items

-- The entries that `inspect` lets pass, apart from the loop.
items : ℕ → List DirEntry → List Item
items n [] = []
items n (e ∷ entries) =
    let rest = items n entries in
    if is_dots e.name then rest else elim (inspect n e) [ none ↦ rest | some item ↦ item ∷ rest ]

-- An entry that is skipped or that `inspect` lets pass.
abbrev Passed : ℕ → DirEntry → Type 0
Passed n e = (is_dots e.name ≡ true) ⊎ ((item : Item) × (inspect n e ≡ some item))

loop-items :
    (n : ℕ) (entries : List DirEntry) (status : ℕ) (calls : List Item)
    → (listdir_loop n entries (status, calls)).1 ≡ calls ++ items n entries
unfolding listdir_loop visit items
loop-items n [] status calls = sym (append-nil calls)
loop-items n (e ∷ entries) status calls = elim (Bool-cases (is_dots e.name)) [
  | inl skipped ↦ simp skipped (loop-items n entries status calls)
  | inr name ↦ elim (Option-cases (inspect n e)) [
    | inl bad ↦ simp (name, bad) (loop-items n entries 1 calls)
    | inr (item, good) ↦
        simp (name, good)
          (loop-items n entries status (calls ++ item ∷ [])
            ∙ append_assoc calls (item ∷ []) (items n entries))
  ]
]

impossible : ((false ≡ true) ⊎ ((item : Item) × (◌≡◌ {A = Option Item} none (some item)))) → ⊥
impossible (inl e) = cc e
impossible (inr (item, e)) = cc e

loop-status :
    (n : ℕ) (entries : List DirEntry) (status : ℕ) (calls : List Item)
    → ((listdir_loop n entries (status, calls)).0 ≡ 0) ↔ ((status ≡ 0) × All (Passed n) entries)
unfolding listdir_loop visit
loop-status n [] status calls = (λ e. (e, tt), λ h. h.0)
loop-status n (e ∷ entries) status calls = elim (Bool-cases (is_dots e.name)) [
  | inl skipped ↦
      let rest = loop-status n entries status calls in
      simp skipped (λ z. (let r = rest.0 z in (r.0, (inl refl, r.1))), λ h. rest.1 (h.0, h.1.1))
  | inr name ↦ elim (Option-cases (inspect n e)) [
    | inl bad ↦
        let rest = loop-status n entries 1 calls in
        simp (name, bad) (λ z. absurd (omega (arith, (rest.0 z).0)), λ h. absurd (impossible h.1.0))
    | inr (item, good) ↦
        let rest = loop-status n entries status (calls ++ item ∷ []) in
        simp (name, good)
          (λ z. (let r = rest.0 z in (r.0, (inr (item, refl), r.1))), λ h. rest.1 (h.0, h.1.1))
  ]
]

items-Passes : (n : ℕ) (entries : List DirEntry) → Passes n entries (items n entries)
unfolding items
items-Passes n [] = end
items-Passes n (e ∷ entries) = elim (Bool-cases (is_dots e.name)) [
  | inl h ↦ simp h (dots e (is_dots-Dots e.name h) (items-Passes n entries))
  | inr h ↦ elim (Option-cases (inspect n e)) [
    | inl bad ↦
        simp (h, bad)
          (left e (not-Dots e.name h)
            (λ item g. let (item', f) = Gets-inspect n e item g in cc (sym bad ∙ f))
            (items-Passes n entries))
    | inr (item, good) ↦
        simp (h, good)
          (passed e item (not-Dots e.name h) (inspect-Gets n e item good) (items-Passes n entries))
  ]
]

Passed-Known : (n : ℕ) (entries : List DirEntry) → All (Passed n) entries ↔ All (Known n) entries
Passed-Known n [] = (λ h. h, λ h. h)
Passed-Known n (e ∷ entries) =
    let rest = Passed-Known n entries in (λ h. (one h.0, rest.0 h.1), λ h. (back h.0, rest.1 h.1))
  where
    one : Passed n e → Known n e
    one (inl h) = inl (is_dots-Dots e.name h)
    one (inr (item, h)) = inr (item, inspect-Gets n e item h)

    back : Known n e → Passed n e
    back (inl h) = inl (Dots-is_dots e.name h)
    back (inr (item, h)) = inr (Gets-inspect n e item h)

-- `os_listdir` on a directory that it can open calls the callback for each directory and each regular
-- file in it whose path fits in 4096 bytes, with its name, kind and size, in order, "." and ".."
-- apart, and for nothing else, not for links; and it returns 0 exactly when no entry but these two was
-- left out and the directory was read to its end and closed.
pub listdir-items :
    (readable closed : Bool) (n : ℕ) (entries : List DirEntry)
    → Passes n entries (listdir true readable closed n entries).1
      × (((listdir true readable closed n entries).0 ≡ 0)
          ↔ ((readable ≡ true) × ((closed ≡ true) × All (Known n) entries)))
unfolding listdir
listdir-items readable closed n entries =
    let status = loop-status n entries 0 [] in
    let known = Passed-Known n entries in
    (
      subst (Passes n entries) (sym (loop-items n entries 0 [])) (items-Passes n entries),
      elim (Bool-cases (readable && closed)) [
        | inl ok ↦
            let both : (readable ≡ true) × (closed ≡ true) = ground arith in
            simp ok
              (λ z. (both.0, (both.1, known.0 (status.0 z).1)), λ h. status.1 (refl, known.1 h.1.1))
        | inr bad ↦
            simp bad
              (λ z. absurd (ground (arith, z)), λ h. absurd (ground (arith, bad, h.0, h.1.0)))
      ],
    )
