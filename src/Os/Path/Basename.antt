-- ===== src/Os/Path/Basename.antt =====
-- What `os_basename` returns.
use stdc.Os.Path.{is_separator, basename_loop, basename}
use stdc.Prelude.{
  ℕ, ◌≡◌, refl, sym, ◌∙◌, ◌≢◌, ◌↔◌, subst, inl, inr, true, false, List, [], ◌∷◌, ◌++◌, arith, some,
  All, Bool-cases, List-cases,
}

abbrev pub Plain : ℕ → Type 0
Plain c = is_separator c ≡ false

-- `base` is what stands behind the last separator of `path`.
pub data IsBase (base : List ℕ) : List ℕ → Type 0 where
  whole : All Plain base → IsBase base base
  behind :
      (front : List ℕ) (c : ℕ)
      → is_separator c ≡ true
      → All Plain base
      → IsBase base (front ++ c ∷ base)

IsBase-exists : (p : List ℕ) → (base : List ℕ) × IsBase base p
IsBase-exists [] = ([], whole tt)
IsBase-exists (c ∷ p) = let (base, b) = IsBase-exists p in grown c base p b
  where
    grown : (c : ℕ) (base p : List ℕ) → IsBase base p → (base' : List ℕ) × IsBase base' (c ∷ p)
    grown c base p (whole plain) = elim (Bool-cases (is_separator c)) [
      | inl s ↦ (p, behind [] c s plain)
      | inr n ↦ (c ∷ p, whole (n, plain))
    ]
    grown c base p (behind front d s plain) = (base, behind (c ∷ front) d s plain)

loop-Plain : (p base : List ℕ) → All Plain p → basename_loop p base ≡ base
unfolding basename_loop
loop-Plain [] base h = refl
loop-Plain (c ∷ p) base h = rw h.0 (loop-Plain p base h.1)

loop-append :
    (front : List ℕ) (c : ℕ) (q base : List ℕ)
    → is_separator c ≡ true
    → basename_loop (front ++ c ∷ q) base ≡ basename_loop q q
unfolding basename_loop
loop-append [] c q base s = rw (basename_loop, s) refl
loop-append (d ∷ front) c q base s = loop-append front c q _ s

loop-IsBase : (base p : List ℕ) → IsBase base p → basename_loop p p ≡ base
loop-IsBase base p (whole plain) = loop-Plain base base plain
loop-IsBase base p (behind front c s plain) =
    loop-append front c base _ s ∙ loop-Plain base base plain

named :
    (c : ℕ) (p : List ℕ) (base : List ℕ)
    → basename_loop (c ∷ p) (c ∷ p) ≡ base
    → base ≢ []
    → basename (c ∷ p) ≡ some base
unfolding basename
named c p [] e h = absurd (h refl)
named c p (d ∷ base) e h = rw (basename, e) refl

named_back :
    (c : ℕ) (p : List ℕ) (base : List ℕ)
    → basename (c ∷ p) ≡ some base
    → (basename_loop (c ∷ p) (c ∷ p) ≡ base) × (base ≢ [])
unfolding basename
named_back c p base e = elim (List-cases (basename_loop (c ∷ p) (c ∷ p))) [
  | inl empty ↦ absurd (ground (arith, e, empty))
  | inr (d, (q, f)) ↦ ground (arith, e, f)
]

-- `os_basename` returns a text exactly when it is what stands behind the last separator of the path,
-- or the whole path where there is none, and is not empty; else it returns a null pointer.
pub basename-IsBase :
    (path base : List ℕ) → (basename path ≡ some base) ↔ (IsBase base path × (base ≢ []))
basename-IsBase [] base =
    (λ e. absurd (unfold basename in ground arith), λ h. absurd (empty base h.0 h.1))
  where
    empty : (base : List ℕ) → IsBase base [] → base ≢ [] → ⊥
    empty base b h = h (sym (loop-IsBase base [] b) ∙ (unfold basename_loop in refl))
basename-IsBase (c ∷ path) base = (
  λ e.
      (let b = IsBase-exists (c ∷ path) in
        let back = named_back c path base e in
        let same : b.0 ≡ base = sym (loop-IsBase b.0 (c ∷ path) b.1) ∙ back.0 in
        (subst (λ t. IsBase t (c ∷ path)) same b.1, back.1)),
  λ h. named c path base (loop-IsBase base (c ∷ path) h.0) h.1,
)
