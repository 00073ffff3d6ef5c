-- ===== src/Os/Listdir/Entry.antt =====
-- What `os_listdir` is to do with one entry, and the tests that do it.
use stdc.Prelude.{
  ℕ, ◌+◌, ◌≡◌, refl, sym, ◌∙◌, ◌⊎◌, inl, inr, true, false, not, ◌||◌, List, [], ◌∷◌, arith, some,
  leb, Bool-cases, length, ap, ◌≤◌,
}
use stdc.Os.Listdir.{DirEntry, Item, Kind, directory, regular, other, is_dots, inspect}

-- The entries "." and "..".
abbrev pub Dots : List ℕ → Type 0
Dots name = (name ≡ b'.' ∷ []) ⊎ (name ≡ b'.' ∷ b'.' ∷ [])

-- An entry whose path, of `n` bytes, a slash and the name, fits in 4096 bytes with its zero.
abbrev pub Fits : ℕ → DirEntry → Type 0
Fits n e = (n + 1 + length e.name) + 1 ≤ 4096

-- What the callback is to get for an entry: its name and its size, and whether it is a directory, if
-- it is a directory or a regular file, and no link.
abbrev pub Gets : ℕ → DirEntry → Item → Type 0
Gets n e item =
    Fits n e
    × ((e.found ≡ true)
        × ((item.name ≡ e.name)
            × ((item.size ≡ e.size)
                × (((e.kind ≡ directory) × (item.folder ≡ true))
                    ⊎ ((e.kind ≡ regular) × (item.folder ≡ false))))))

-- An entry that is "." or "..", or that is passed on.
abbrev pub Known : ℕ → DirEntry → Type 0
Known n e = Dots e.name ⊎ ((item : Item) × Gets n e item)

pub is_dots-Dots : (name : List ℕ) → is_dots name ≡ true → Dots name
unfolding is_dots
is_dots-Dots [] h = absurd (cc h)
is_dots-Dots (a ∷ []) h = let e : a ≡ b'.' = ground arith in inl (ap (λ t. t ∷ []) e)
is_dots-Dots (a ∷ b ∷ []) h =
    let e : a ≡ b'.' = ground arith in
    let f : b ≡ b'.' = ground arith in inr (ap (λ t. t ∷ b ∷ []) e ∙ ap (λ t. b'.' ∷ t ∷ []) f)
is_dots-Dots (a ∷ b ∷ c ∷ name) h = absurd (cc h)

pub Dots-is_dots : (name : List ℕ) → Dots name → is_dots name ≡ true
unfolding is_dots
Dots-is_dots name (inl e) = ap is_dots e
Dots-is_dots name (inr e) = ap is_dots e

pub not-Dots : (name : List ℕ) → is_dots name ≡ false → ¬ Dots name
not-Dots name h d = cc (h, Dots-is_dots name d)

Kind-cases : (k : Kind) → (k ≡ directory) ⊎ ((k ≡ regular) ⊎ (k ≡ other))
Kind-cases directory = inl refl
Kind-cases regular = inr (inl refl)
Kind-cases other = inr (inr refl)

pub inspect-Gets : (n : ℕ) (e : DirEntry) (item : Item) → inspect n e ≡ some item → Gets n e item
unfolding inspect
inspect-Gets n e item h = elim (Bool-cases (leb 4096 (n + 1 + length e.name) || not e.found)) [
  | inl bad ↦ absurd (cc (simp bad at h))
  | inr good ↦
      let fits : Fits n e = ground arith in
      let there : e.found ≡ true = ground arith in
      elim (Kind-cases e.kind) [
        | inl k ↦
            let same : record { name = e.name; folder = true; size = e.size } ≡ item =
              cc (simp (good, k) at h) in
            (
              fits,
              (
                there,
                (
                  ap (λ t. t.name) (sym same),
                  (ap (λ t. t.size) (sym same), inl (k, ap (λ t. t.folder) (sym same))),
                ),
              ),
            )
        | inr (inl k) ↦
            let same : record { name = e.name; folder = false; size = e.size } ≡ item =
              cc (simp (good, k) at h) in
            (
              fits,
              (
                there,
                (
                  ap (λ t. t.name) (sym same),
                  (ap (λ t. t.size) (sym same), inr (k, ap (λ t. t.folder) (sym same))),
                ),
              ),
            )
        | inr (inr k) ↦ absurd (cc (simp (good, k) at h))
      ]
]

pub Gets-inspect :
    (n : ℕ) (e : DirEntry) (item : Item)
    → Gets n e item
    → (item' : Item) × (inspect n e ≡ some item')
unfolding inspect
Gets-inspect n e item (fits, (there, (named, (sized, kind)))) =
    let good : (leb 4096 (n + 1 + length e.name) || not e.found) ≡ false = ground arith in
    elim kind [
      | inl (k, f) ↦ (record { name = e.name; folder = true; size = e.size }, simp (good, k) refl)
      | inr (k, f) ↦ (record { name = e.name; folder = false; size = e.size }, simp (good, k) refl)
    ]
