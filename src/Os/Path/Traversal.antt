-- ===== src/Os/Path/Traversal.antt =====
-- What `os_traversal` finds.
use stdc.Os.Path.{is_separator, skip, scan, traversal_loop, traversal}
use stdc.Prelude.{
  ℕ, zero, suc, ◌+◌, ◌≤◌, ◌<◌, ◌≡◌, refl, sym, ap, ap₂, ◌∙◌, subst, inl, inr, Bool, true, false,
  ◌&&◌, ◌||◌, List, [], ◌∷◌, arith, length, leb, ◌==◌, if◌then◌else◌, Bool-cases, List-cases,
}

-- The bytes up to the first separator, and the components from there on.
unfoldable pub component : List ℕ → List ℕ
component [] = []
component (c ∷ p) = if is_separator c then [] else c ∷ component p

-- The components of a path, empty ones included.
unfoldable pub components : List ℕ → List (List ℕ)
components [] = [] ∷ []
components (c ∷ p) =
    let rest = components p in
    if is_separator c then [] ∷ rest else elim rest [ [] ↦ (c ∷ []) ∷ [] | d ∷ ds ↦ (c ∷ d) ∷ ds ]

unfoldable pub all_dots : List ℕ → Bool
all_dots [] = true
all_dots (c ∷ p) = (c == b'.') && all_dots p

-- Two dots or more, and nothing else.
abbrev pub climbs : List ℕ → Bool
climbs p = all_dots p && leb 2 (length p)

unfoldable pub any : List (List ℕ) → Bool
any [] = false
any (p ∷ ps) = climbs p || any ps

-- What stands behind the first component.
unfoldable pub behind : List ℕ → List (List ℕ)
behind [] = []
behind (c ∷ p) = components p

any-skip : (p : List ℕ) → any (components (skip p)) ≡ any (components p)
unfolding any components skip all_dots
any-skip [] = refl
any-skip (c ∷ p) = elim (Bool-cases (is_separator c)) [ inl s ↦ rw s (any-skip p) | inr n ↦ simp n ]

-- A list of bytes that begins with a separator, or is empty.
abbrev pub Stops : List ℕ → Type 0
Stops [] = Unit
Stops (c ∷ p) = is_separator c ≡ true

any-behind : (p : List ℕ) → Stops p → any (behind p) ≡ any (components p)
unfolding any behind components all_dots
any-behind [] h = refl
any-behind (c ∷ p) h = rw h refl

-- What `scan` returns at a path.
record Scanned (d : ℕ) (o : Bool) (p : List ℕ) (r : ℕ × (Bool × List ℕ)) : Type 0 where
  only : r.1.0 ≡ o && all_dots (component p)
  counted : r.1.0 ≡ true → r.0 ≡ d + length (component p)
  split : components p ≡ component p ∷ behind r.1.1
  stops : Stops r.1.1
  shorter : length r.1.1 + length (component p) ≡ length p

scan_end :
    (d : ℕ) (o : Bool) (p : List ℕ)
    → component p ≡ []
    → components p ≡ [] ∷ behind p
    → Stops p
    → Scanned d o p (d, (o, p))
scan_end d o p e f h = record {
  only = rw e (unfold all_dots in ground arith);
  counted = λ t. rw e (omega arith);
  split = f ∙ ap (λ t. t ∷ behind p) (sym e);
  stops = h;
  shorter = rw e (omega arith);
}

scan_more :
    (d : ℕ) (o : Bool) (c : ℕ) (p : List ℕ) (r : ℕ × (Bool × List ℕ))
    → component (c ∷ p) ≡ c ∷ component p
    → components (c ∷ p) ≡ (c ∷ component p) ∷ behind r.1.1
    → Scanned (if c == b'.' then d + 1 else d) (o && c == b'.') p r
    → Scanned d o (c ∷ p) r
unfolding all_dots
scan_more d o c p r e f s = record {
  only = rw e (ground (arith, s.only));
  counted = λ t. rw e (ground (arith, s.only, s.counted t));
  split = f ∙ ap (λ t. t ∷ behind r.1.1) (sym e);
  stops = s.stops;
  shorter = rw e (omega (arith, s.shorter));
}

scan-Scanned : (d : ℕ) (o : Bool) (p : List ℕ) → Scanned d o p (scan d o p)
unfolding scan component components behind
scan-Scanned d o [] = scan_end d o [] refl refl tt
scan-Scanned d o (c ∷ p) = elim (Bool-cases (is_separator c)) [
  | inl s ↦ rw (s, scan) (scan_end d o (c ∷ p) (simp s) (simp s) s)
  | inr n ↦
      let r = scan-Scanned (if c == b'.' then d + 1 else d) (o && c == b'.') p in
      rw (n, scan) (scan_more d o c p _ (simp n) (simp (n, r.split)) r)
]

skip-head : (c : ℕ) (p q : List ℕ) → skip p ≡ c ∷ q → is_separator c ≡ false
unfolding skip
skip-head c [] q e = absurd (ground arith)
skip-head c (d ∷ p) q e = elim (Bool-cases (is_separator d)) [
  | inl s ↦ skip-head c p q (simp s at e)
  | inr n ↦
      let same : d ≡ c = ground (arith, simp n at e) in subst (λ t. is_separator t ≡ false) same n
]

length-skip : (p : List ℕ) → length (skip p) ≤ length p
unfolding skip
length-skip [] = omega arith
length-skip (c ∷ p) = ground (arith, length-skip p)

any-split :
    (c : ℕ) (q : List ℕ)
    → (let (dot_count, (only_dots, rest)) = scan 0 true (c ∷ q) in
        any (components (c ∷ q))
        ≡ (if only_dots && leb 2 dot_count then true else any (components rest)))
unfolding any
any-split c q =
    let s = scan-Scanned 0 true (c ∷ q) in
    let r = scan 0 true (c ∷ q) in
    let first : climbs (component (c ∷ q)) ≡ r.1.0 && leb 2 r.0 =
      ground (arith, s.only, s.counted) in
    ap any s.split
    ∙ ap₂ (λ a b. a || b) first (any-behind r.1.1 s.stops)
    ∙ either (r.1.0 && leb 2 r.0) (any (components r.1.1))
  where
    either : (a b : Bool) → (a || b) ≡ (if a then true else b)
    either true b = refl
    either false b = refl

component-head : (c : ℕ) (q : List ℕ) → is_separator c ≡ false → 0 < length (component (c ∷ q))
unfolding component
component-head c q n = rw n (omega arith)

traversal_loop-any :
    (fuel : ℕ) (p : List ℕ) → length p ≤ fuel → traversal_loop fuel p ≡ any (components p)
unfolding traversal_loop any components all_dots
traversal_loop-any zero [] h = refl
traversal_loop-any zero (c ∷ p) h = absurd (omega arith)
traversal_loop-any (suc fuel) p h = elim (List-cases (skip p)) [
  | inl e ↦ rw (traversal_loop, e) (ap (λ t. any (components t)) (sym e) ∙ any-skip p)
  | inr (c, (q, e)) ↦
      let r = scan 0 true (c ∷ q) in
      let s = scan-Scanned 0 true (c ∷ q) in
      let taken = component-head c q (skip-head c p q e) in
      let len : length (c ∷ q) ≤ length p = subst (λ t. length t ≤ length p) e (length-skip p) in
      let later = traversal_loop-any fuel r.1.1 (omega (arith, s.shorter)) in
      rw (traversal_loop, e)
        (ap (λ t. if r.1.0 && leb 2 r.0 then true else t) later
          ∙ sym (any-split c q)
          ∙ ap (λ t. any (components t)) (sym e)
          ∙ any-skip p)
]

-- `os_traversal` returns true exactly when one of the components of the path, which lie between
-- separators of either kind, consists of two dots or more and nothing else.
pub traversal-any : (path : List ℕ) → traversal path ≡ any (components path)
unfolding traversal
traversal-any path = traversal_loop-any (length path) path (omega arith)
