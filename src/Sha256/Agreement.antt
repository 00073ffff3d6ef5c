-- ===== src/Sha256/Agreement.antt =====
-- `__sha256_transform__` is the compression of FIPS 180-4.
use mathlib.Core.List.{append-nil, append_assoc}
use stdc.Prelude.Word.{u32, shr, bit_xor}
use stdc.Prelude.{
  ℕ, zero, suc, ◌+◌, ◌-◌, ◌%◌, ◌^◌, ◌≡◌, refl, sym, ap, ap₂, ◌∙◌, List, [], ◌∷◌, ◌++◌, arith,
  length, length-append, get_or, get_or-append, All, All-append,
}
use stdc.Sha256.Standard.{
  small_sigma0, small_sigma1, big_sigma0, big_sigma1, ch, maj, parse_words, schedule,
  standard_constants, standard_rounds, add_words, standard_compress,
}
use stdc.Sha256.Transform.{
  constants, rotate_right, load_words, extend_words, Vars, round, rounds, load_vars, transform,
}
use stdc.Sha256.Words.{
  IsByte, IsWord, constants_lem, rotate_right_lem, load_words-parse_words, parse_words-IsWord,
}

module _ (x : ℕ) (h : IsWord x) where
  small_sigma0_lem :
      bit_xor (bit_xor (rotate_right x 7) (rotate_right x 18)) (shr x 3) ≡ small_sigma0 x
  unfolding small_sigma0
  small_sigma0_lem =
      ap₂ (λ a b. bit_xor (bit_xor a b) (shr x 3))
        (rotate_right_lem x 7 (omega arith) (omega arith))
        (rotate_right_lem x 18 (omega arith) (omega arith))

  small_sigma1_lem :
      bit_xor (bit_xor (rotate_right x 17) (rotate_right x 19)) (shr x 10) ≡ small_sigma1 x
  unfolding small_sigma1
  small_sigma1_lem =
      ap₂ (λ a b. bit_xor (bit_xor a b) (shr x 10))
        (rotate_right_lem x 17 (omega arith) (omega arith))
        (rotate_right_lem x 19 (omega arith) (omega arith))

  big_sigma0_lem :
      bit_xor (bit_xor (rotate_right x 2) (rotate_right x 13)) (rotate_right x 22) ≡ big_sigma0 x
  unfolding big_sigma0
  big_sigma0_lem =
      ap₂ bit_xor
        (ap₂ bit_xor (rotate_right_lem x 2 (omega arith) (omega arith))
          (rotate_right_lem x 13 (omega arith) (omega arith)))
        (rotate_right_lem x 22 (omega arith) (omega arith))

  big_sigma1_lem :
      bit_xor (bit_xor (rotate_right x 6) (rotate_right x 11)) (rotate_right x 25) ≡ big_sigma1 x
  unfolding big_sigma1
  big_sigma1_lem =
      ap₂ bit_xor
        (ap₂ bit_xor (rotate_right_lem x 6 (omega arith) (omega arith))
          (rotate_right_lem x 11 (omega arith) (omega arith)))
        (rotate_right_lem x 25 (omega arith) (omega arith))

get_or-IsWord : (xs : List ℕ) (k : ℕ) → All IsWord xs → IsWord (get_or xs k 0)
get_or-IsWord [] k h = omega arith
get_or-IsWord (x ∷ xs) zero h = h.0
get_or-IsWord (x ∷ xs) (suc k) h = get_or-IsWord xs k h.1

-- The second loop goes on from the last sixteen words.
extend_words-schedule :
    (n : ℕ) (done window : List ℕ)
    → length window ≡ 16
    → All IsWord window
    → extend_words n (length done + 16) (done ++ window) ≡ (done ++ window) ++ schedule n window
unfolding extend_words schedule
extend_words-schedule zero done window l h = sym (append-nil (done ++ window))
extend_words-schedule (suc n) done [] l h = absurd (omega arith)
extend_words-schedule (suc n) done (x ∷ window) l h =
    let all = x ∷ window in
    let at : (j k : ℕ)
        → length done + 16 - j ≡ length done + k
        → get_or (done ++ all) (length done + 16 - j) 0 ≡ get_or all k 0 =
      λ j k e. ap (λ t. get_or (done ++ all) t 0) e ∙ get_or-append done all k 0 in
    let w1 = get_or-IsWord all 1 h in
    let w14 = get_or-IsWord all 14 h in
    let w =
      (small_sigma1 (get_or all 14 0) + get_or all 9 0 + small_sigma0 (get_or all 1 0) + x)
      % 2 ^ 32 in
    let same : u32 (
          u32 (
            u32 (
              x
              + bit_xor
                  (bit_xor (rotate_right (get_or all 1 0) 7) (rotate_right (get_or all 1 0) 18))
                  (shr (get_or all 1 0) 3))
            + get_or all 9 0)
          + bit_xor
              (bit_xor (rotate_right (get_or all 14 0) 17) (rotate_right (get_or all 14 0) 19))
              (shr (get_or all 14 0) 10))
        ≡ w =
      rw (small_sigma0_lem (get_or all 1 0) w1, small_sigma1_lem (get_or all 14 0) w14)
        (omega arith) in
    let next : length done + 16 + 1 ≡ length (done ++ x ∷ []) + 16 =
      omega (arith, length-append done (x ∷ [])) in
    let cut : (done ++ all) ++ w ∷ [] ≡ (done ++ x ∷ []) ++ (window ++ w ∷ []) =
      append_assoc done all (w ∷ []) ∙ sym (append_assoc done (x ∷ []) (window ++ w ∷ [])) in
    rw
      (
        at 15 1 (omega arith),
        at 2 14 (omega arith),
        at 16 0 (omega arith),
        at 7 9 (omega arith),
        same,
      )
      (ap₂ (extend_words n) next cut
        ∙ extend_words-schedule n (done ++ x ∷ []) (window ++ w ∷ [])
            (omega (arith, length-append window (w ∷ [])))
            (All-append IsWord window (w ∷ []) h.1 (omega arith, tt))
        ∙ ap (λ t. t ++ schedule n (window ++ w ∷ [])) (sym cut)
        ∙ append_assoc (done ++ all) (w ∷ []) (schedule n (window ++ w ∷ [])))

abbrev listed : Vars → List ℕ
listed v = v.a ∷ v.b ∷ v.c ∷ v.d ∷ v.e ∷ v.f ∷ v.g ∷ v.h ∷ []

-- One round; the sums wrap around once in the standard and at each sign in the code.
round_lem :
    (k w : ℕ) (v : Vars)
    → IsWord v.a
    → IsWord v.e
    → ((round k w v).a
        ≡ ((v.h + big_sigma1 v.e + ch v.e v.f v.g + k + w) + (big_sigma0 v.a + maj v.a v.b v.c))
          % 2 ^ 32)
      × ((round k w v).e ≡ (v.d + (v.h + big_sigma1 v.e + ch v.e v.f v.g + k + w)) % 2 ^ 32)
unfolding round ch maj
round_lem k w v ha he = rw (big_sigma0_lem v.a ha, big_sigma1_lem v.e he) (omega arith, omega arith)

rounds-standard_rounds :
    (ks ws : List ℕ) (v : Vars)
    → IsWord v.a
    → IsWord v.e
    → listed (rounds ks ws v) ≡ standard_rounds ks ws (listed v)
unfolding rounds standard_rounds round
rounds-standard_rounds [] ws v ha he = refl
rounds-standard_rounds (k ∷ ks) [] v ha he = refl
rounds-standard_rounds (k ∷ ks) (w ∷ ws) v ha he =
    let (a, e) = round_lem k w v ha he in
    rounds-standard_rounds ks ws (round k w v) (omega (arith, a)) (omega (arith, e))
    ∙ ap (standard_rounds ks ws) (ap₂ (λ s t. s ∷ v.a ∷ v.b ∷ v.c ∷ t ∷ v.e ∷ v.f ∷ v.g ∷ []) a e)

abbrev pub IsState : List ℕ → Type 0
IsState state = (length state ≡ 8) × All IsWord state

sums :
    (v : Vars) (s : Vars)
    → u32 (s.a + v.a)
        ∷ u32 (s.b + v.b)
        ∷ u32 (s.c + v.c)
        ∷ u32 (s.d + v.d)
        ∷ u32 (s.e + v.e)
        ∷ u32 (s.f + v.f)
        ∷ u32 (s.g + v.g)
        ∷ u32 (s.h + v.h)
        ∷ []
      ≡ add_words (listed v) (listed s)
unfolding add_words
sums v s =
    let flip : (x y : ℕ) → u32 (x + y) ≡ (y + x) % 2 ^ 32 = λ x y. omega arith in
    cc (
      flip s.a v.a,
      flip s.b v.b,
      flip s.c v.c,
      flip s.d v.d,
      flip s.e v.e,
      flip s.f v.f,
      flip s.g v.g,
      flip s.h v.h,
    )

listed-load_vars : (state : List ℕ) → length state ≡ 8 → listed (load_vars state) ≡ state
unfolding load_vars
listed-load_vars (a ∷ b ∷ c ∷ d ∷ e ∷ f ∷ g ∷ h ∷ []) l = refl
listed-load_vars (a ∷ b ∷ c ∷ d ∷ e ∷ f ∷ g ∷ h ∷ i ∷ s) l = absurd (omega arith)
listed-load_vars [] l = absurd (omega arith)
listed-load_vars (a ∷ []) l = absurd (omega arith)
listed-load_vars (a ∷ b ∷ []) l = absurd (omega arith)
listed-load_vars (a ∷ b ∷ c ∷ []) l = absurd (omega arith)
listed-load_vars (a ∷ b ∷ c ∷ d ∷ []) l = absurd (omega arith)
listed-load_vars (a ∷ b ∷ c ∷ d ∷ e ∷ []) l = absurd (omega arith)
listed-load_vars (a ∷ b ∷ c ∷ d ∷ e ∷ f ∷ []) l = absurd (omega arith)
listed-load_vars (a ∷ b ∷ c ∷ d ∷ e ∷ f ∷ g ∷ []) l = absurd (omega arith)

-- `__sha256_transform__` is the standard's compression, and leaves eight words.
pub transform-standard_compress :
    (state block : List ℕ)
    → IsState state
    → length block ≡ 64
    → All IsByte block
    → (transform state block ≡ standard_compress state block) × IsState (transform state block)
unfolding transform standard_compress load_vars
transform-standard_compress state block (eight, words) l h =
    let m = parse_words block in
    let (parsed, sixteen) = parse_words-IsWord 16 block l h in
    let loaded : load_words 16 0 block ≡ m = load_words-parse_words 16 0 [] block refl l h in
    let scheduled : extend_words 48 16 (load_words 16 0 block) ≡ m ++ schedule 48 m =
      ap (extend_words 48 16) loaded ∙ extend_words-schedule 48 [] m sixteen parsed in
    let s = load_vars state in
    let same = listed-load_vars state eight in
    (
      sums (rounds constants (extend_words 48 16 (load_words 16 0 block)) s) s
          ∙ ap₂ add_words
              (rounds-standard_rounds constants (extend_words 48 16 (load_words 16 0 block)) s
                  (get_or-IsWord state 0 words) (get_or-IsWord state 4 words)
                ∙ ap₂ (λ ks ws. standard_rounds ks ws (listed s)) constants_lem scheduled
                ∙ ap (standard_rounds standard_constants (m ++ schedule 48 m)) same)
              same,
      (
        refl,
        (
          omega arith,
          (
            omega arith,
            (
              omega arith,
              (omega arith, (omega arith, (omega arith, (omega arith, (omega arith, tt))))),
            ),
          ),
        ),
      ),
    )
