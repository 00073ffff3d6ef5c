-- ===== src/Os/Path/Canonical.antt =====
-- What `os_canonical_path` writes.
use stdc.Os.Path.{last_slash, fit, parent_and_base, join, resolve_parent, resolve, canonical_path}
use stdc.Prelude.Word.{u32}
use stdc.Prelude.{
  ℕ, ◌^◌, ◌<◌, ◌≡◌, ◌≢◌, refl, sym, ap, inl, inr, subst, Bool, false, ◌&&◌, ◌||◌, List, [], ◌∷◌,
  ◌++◌, arith, length, Option, none, some, All, ◌==◌, ltb, leb, if◌then◌else◌, Bool-cases,
}

abbrev pub NoSlash : List ℕ → Type 0
NoSlash p = All (λ c. (c == b'/') ≡ false) p

-- The two cases of a path with and without a slash.
pub data Cut : List ℕ → Option (List ℕ × List ℕ) → Type 0 where
  uncut : {p : List ℕ} → NoSlash p → Cut p none
  cut : (front base : List ℕ) → NoSlash base → Cut (front ++ b'/' ∷ base) (some (front, base))

pub last_slash-Cut : (p : List ℕ) → Cut p (last_slash p)
unfolding last_slash
last_slash-Cut [] = uncut tt
last_slash-Cut (c ∷ p) = grown c p (last_slash p) (last_slash-Cut p)
  where
    grown :
        (c : ℕ) (p : List ℕ) (r : Option (List ℕ × List ℕ))
        → Cut p r
        → Cut (c ∷ p) (elim r [
          | some (front, base) ↦ some (c ∷ front, base)
          | none ↦ if c == b'/' then some ([], p) else none
        ])
    grown c p _ (uncut h) = elim (Bool-cases (c == b'/')) [
      | inl s ↦ let same : c ≡ b'/' = ground arith in rw same (cut [] p h)
      | inr n ↦ rw n (uncut (n, h))
    ]
    grown c _ _ (cut front base h) = cut (c ∷ front) base h

-- The parent of which the system is asked: the text before the last slash, "/" where that is empty,
-- and "." where there is no slash.
pub data Splits (path : List ℕ) : List ℕ → List ℕ → Type 0 where
  bare : NoSlash path → Splits path (b'.' ∷ []) path
  rooted :
      {base : List ℕ} → NoSlash base → base ≢ [] → path ≡ b'/' ∷ base → Splits path (b'/' ∷ []) base
  nested :
      {parent base : List ℕ}
      → NoSlash base
      → base ≢ []
      → parent ≢ []
      → path ≡ parent ++ b'/' ∷ base
      → Splits path parent base

Splits-pair :
    {path a b c d : List ℕ}
    → ◌≡◌ {A = Option (List ℕ × List ℕ)} (some (a, b)) (some (c, d))
    → Splits path a b
    → Splits path c d
Splits-pair {path} {a} {b} {c} {d} e s =
    let p : a ≡ c = ground (arith, e) in
    let q : b ≡ d = ground (arith, e) in
    subst (λ t. Splits path t d) p (subst (λ t. Splits path a t) q s)

parent_and_base-Splits :
    (path parent base : List ℕ) (r : Option (List ℕ × List ℕ))
    → Cut path r
    → parent_and_base path r ≡ some (parent, base)
    → Splits path parent base
unfolding parent_and_base
parent_and_base-Splits path parent base _ (uncut h) e = Splits-pair e (bare h)
parent_and_base-Splits _ parent base _ (cut front [] h) e = absurd (cc e)
parent_and_base-Splits _ parent base _ (cut [] (x ∷ b) h) e =
    Splits-pair e (rooted h (λ t. cc t) refl)
parent_and_base-Splits _ parent base _ (cut (y ∷ front) (x ∷ b) h) e =
    elim (Bool-cases (leb 4096 (length (y ∷ front)))) [
      | inl long ↦ absurd (cc (simp long at e))
      | inr short ↦ Splits-pair (simp short at e) (nested h (λ t. cc t) (λ t. cc t) refl)
    ]

-- A text that was written is the one that was meant, and fits in the output with its zero.
fit_lem :
    (capacity : ℕ) (text out : List ℕ)
    → fit capacity text ≡ some out
    → (out ≡ text) × (length text < capacity)
unfolding fit
fit_lem capacity text out e =
    elim (Bool-cases (ltb (u32 capacity) (2 ^ 31) && ltb (length text) (u32 capacity))) [
      | inl ok ↦ (sym (ground (arith, simp ok at e)), ground arith)
      | inr bad ↦ absurd (cc (simp bad at e))
    ]

-- What 0 means: the system's name for the path, or for its parent with the last component behind it.
pub data Named (realpath : List ℕ → Option (List ℕ)) (path : List ℕ) : List ℕ → Type 0 where
  existing : {out : List ℕ} → realpath path ≡ some out → Named realpath path out
  beside :
      {parent base resolved : List ℕ}
      → realpath path ≡ none
      → Splits path parent base
      → realpath parent ≡ some resolved
      → Named realpath path (resolved ++ b'/' ∷ base)

module _ (realpath : List ℕ → Option (List ℕ)) (capacity : ℕ) (path out : List ℕ) where
  written :
      (text : List ℕ)
      → Named realpath path text
      → fit capacity text ≡ some out
      → Named realpath path out × (length out < capacity)
  written text n f =
      let r = fit_lem capacity text out f in
      (subst (Named realpath path) (sym r.0) n, omega (arith, r.1, ap length r.0))

  join-Named :
      (parent base : List ℕ) (r : Option (List ℕ))
      → realpath parent ≡ r
      → realpath path ≡ none
      → Splits path parent base
      → join capacity base r ≡ some out
      → Named realpath path out × (length out < capacity)
  unfolding join
  join-Named parent base none f g s e = absurd (cc e)
  join-Named parent base (some text) f g s e = written (text ++ b'/' ∷ base) (beside g s f) e

  resolve_parent-Named :
      (r : Option (List ℕ × List ℕ))
      → parent_and_base path (last_slash path) ≡ r
      → realpath path ≡ none
      → resolve_parent realpath capacity r ≡ some out
      → Named realpath path out × (length out < capacity)
  unfolding resolve_parent
  resolve_parent-Named none f g e = absurd (cc e)
  resolve_parent-Named (some (parent, base)) f g e =
      join-Named parent base (realpath parent) refl g
        (parent_and_base-Splits path parent base (last_slash path) (last_slash-Cut path) f) e

  resolve-Named :
      (missing : Bool) (r : Option (List ℕ))
      → realpath path ≡ r
      → resolve realpath missing capacity path r ≡ some out
      → Named realpath path out × (length out < capacity)
  unfolding resolve
  resolve-Named missing (some text) f e = written text (existing f) e
  resolve-Named missing none f e = elim (Bool-cases missing) [
    | inl m ↦ resolve_parent-Named _ refl f (simp m at e)
    | inr n ↦ absurd (cc (simp n at e))
  ]

  -- If `os_canonical_path` returns 0, the output holds the name that the system has for the path, or,
  -- where there is no such file, the system's name for the parent, a slash and the last component,
  -- in which there is no slash; and the whole fits in the output with its zero.
  pub canonical_path-Named :
      (missing : Bool)
      → canonical_path realpath missing capacity path ≡ some out
      → Named realpath path out × (length out < capacity)
  unfolding canonical_path
  canonical_path-Named missing e =
      elim (Bool-cases (capacity == 0 || length path == 0 || leb 4096 (length path))) [
        | inl bad ↦ absurd (cc (simp bad at e))
        | inr good ↦ resolve-Named missing (realpath path) refl (simp good at e)
      ]
