-- ===== src/Md5/Agreement.antt =====
-- `__md5_transform__` is the compression of RFC 1321.
use stdc.Prelude.Blocks.{chain}
use stdc.Prelude.Word.{u8, u32, shr}
use stdc.Prelude.{
  ℕ, zero, suc, ◌+◌, ◌-◌, ◌*◌, ◌/◌, ◌%◌, ◌^◌, ◌≤◌, ◌<◌, ◌≡◌, refl, ap, ◌∙◌, List, [], ◌∷◌, ◌++◌,
  arith, length, length-take, length-drop, take, drop, get_or, All, All-take, All-drop, All-append,
  All-replicate,
}
use stdc.Md5.Context.{md5_initial_state, md5_encode}
use stdc.Md5.Padding.{mark, little_endian, pad, rfc1321}
use stdc.Md5.Standard.{
  sine_word, parse_words, write_words, rotl, aux_f, aux_g, aux_h, aux_i, rfc_round, add_words,
  rfc_compress, rfc_digest,
}
use stdc.Md5.Transform.{
  md5_decode, rotate_left, mix_f, mix_g, mix_h, mix_i, Registers, apply_step, ff_steps, gg_steps,
  hh_steps, ii_steps, run_steps, md5_transform,
}
use stdc.Md5.Words.{
  IsByte, table, ff_steps_lem, gg_steps_lem, hh_steps_lem, ii_steps_lem, initial_lem,
  rotate_left_lem, md5_decode-parse_words, md5_encode-write_words,
}

-- A shift by which the code rotates a word as the RFC does.
abbrev Rotates : ℕ → Type 0
Rotates n = (x : ℕ) → x < 2 ^ 32 → rotate_left x n ≡ rotl n x

abbrev Shifts : List ℕ → Type 0
Shifts shifts = (j : ℕ) → j < 4 → Rotates (get_or shifts j 0)

four : (p q r s : ℕ) → Rotates p → Rotates q → Rotates r → Rotates s → Shifts (p ∷ q ∷ r ∷ s ∷ [])
four p q r s a b c d zero h = a
four p q r s a b c d (suc zero) h = b
four p q r s a b c d (suc (suc zero)) h = c
four p q r s a b c d (suc (suc (suc zero))) h = d
four p q r s a b c d (suc (suc (suc (suc j)))) h = absurd (omega arith)

turns_f : Shifts (7 ∷ 12 ∷ 17 ∷ 22 ∷ [])
turns_f =
    four 7 12 17 22 (λ x h. rotate_left_lem 7 x (omega arith) (omega arith))
      (λ x h. rotate_left_lem 12 x (omega arith) (omega arith))
      (λ x h. rotate_left_lem 17 x (omega arith) (omega arith))
      (λ x h. rotate_left_lem 22 x (omega arith) (omega arith))

turns_g : Shifts (5 ∷ 9 ∷ 14 ∷ 20 ∷ [])
turns_g =
    four 5 9 14 20 (λ x h. rotate_left_lem 5 x (omega arith) (omega arith))
      (λ x h. rotate_left_lem 9 x (omega arith) (omega arith))
      (λ x h. rotate_left_lem 14 x (omega arith) (omega arith))
      (λ x h. rotate_left_lem 20 x (omega arith) (omega arith))

turns_h : Shifts (4 ∷ 11 ∷ 16 ∷ 23 ∷ [])
turns_h =
    four 4 11 16 23 (λ x h. rotate_left_lem 4 x (omega arith) (omega arith))
      (λ x h. rotate_left_lem 11 x (omega arith) (omega arith))
      (λ x h. rotate_left_lem 16 x (omega arith) (omega arith))
      (λ x h. rotate_left_lem 23 x (omega arith) (omega arith))

turns_i : Shifts (6 ∷ 10 ∷ 15 ∷ 21 ∷ [])
turns_i =
    four 6 10 15 21 (λ x h. rotate_left_lem 6 x (omega arith) (omega arith))
      (λ x h. rotate_left_lem 10 x (omega arith) (omega arith))
      (λ x h. rotate_left_lem 15 x (omega arith) (omega arith))
      (λ x h. rotate_left_lem 21 x (omega arith) (omega arith))

abbrev listed : Registers → List ℕ
listed v = v.a ∷ v.b ∷ v.c ∷ v.d ∷ []

-- One operation; the sum wraps around once in the RFC and at each sign in the code.
apply_step_lem :
    (f : ℕ → ℕ → ℕ → ℕ) (x s ac : ℕ) (v : Registers)
    → Rotates s
    → (apply_step f x s ac v).b ≡ (v.b + rotl s ((v.a + f v.b v.c v.d + x + ac) % 2 ^ 32)) % 2 ^ 32
unfolding apply_step
apply_step_lem f x s ac v r =
    let a : u32 (u32 (u32 (v.a + f v.b v.c v.d) + x) + ac)
        ≡ (v.a + f v.b v.c v.d + x + ac) % 2 ^ 32 =
      omega arith in
    let turned = r (u32 (u32 (u32 (v.a + f v.b v.c v.d) + x) + ac)) (omega arith) ∙ ap (rotl s) a in
    omega (arith, turned)

run_steps-rfc_round :
    (f : ℕ → ℕ → ℕ → ℕ) (k : ℕ → ℕ) (shifts : List ℕ) (n i : ℕ) (x : List ℕ) (v : Registers)
    → Shifts shifts
    → listed (run_steps f (table k shifts n i) x v) ≡ rfc_round f k shifts n i x (listed v)
unfolding run_steps rfc_round table apply_step
run_steps-rfc_round f k shifts zero i x v r = refl
run_steps-rfc_round f k shifts (suc n) i x v r =
    let s = get_or shifts (i % 4) 0 in
    let one =
      apply_step_lem f (get_or x (k i) 0) s (sine_word (i + 1)) v (r (i % 4) (omega arith)) in
    run_steps-rfc_round f k shifts n (i + 1) x
      (apply_step f (get_or x (k i) 0) s (sine_word (i + 1)) v) r
    ∙ ap (λ b. rfc_round f k shifts n (i + 1) x (v.d ∷ b ∷ v.b ∷ v.c ∷ [])) one

abbrev pub IsState : List ℕ → Type 0
IsState state = length state ≡ 4

-- `__md5_transform__` is the compression of the RFC.
pub md5_transform-rfc_compress :
    (state block : List ℕ)
    → IsState state
    → length block ≡ 64
    → All IsByte block
    → md5_transform state block ≡ rfc_compress state block
unfolding md5_transform rfc_compress mix_f mix_g mix_h mix_i aux_f aux_g aux_h aux_i add_words
md5_transform-rfc_compress (a ∷ b ∷ c ∷ d ∷ []) block e l h =
    let x = md5_decode 16 0 block in
    let parsed : x ≡ parse_words block = md5_decode-parse_words 16 0 [] block refl l h in
    let v : Registers = record { a = a; b = b; c = c; d = d } in
    let v1 = run_steps mix_f ff_steps x v in
    let v2 = run_steps mix_g gg_steps x v1 in
    let v3 = run_steps mix_h hh_steps x v2 in
    let v4 = run_steps mix_i ii_steps x v3 in
    let r1 =
      ap (λ t. listed (run_steps mix_f t x v)) ff_steps_lem
      ∙ run_steps-rfc_round aux_f (λ i. i) (7 ∷ 12 ∷ 17 ∷ 22 ∷ []) 16 0 x v turns_f in
    let r2 =
      ap (λ t. listed (run_steps mix_g t x v1)) gg_steps_lem
      ∙ run_steps-rfc_round aux_g (λ i. (5 * i + 1) % 16) (5 ∷ 9 ∷ 14 ∷ 20 ∷ []) 16 16 x v1 turns_g
      ∙ ap (rfc_round aux_g (λ i. (5 * i + 1) % 16) (5 ∷ 9 ∷ 14 ∷ 20 ∷ []) 16 16 x) r1 in
    let r3 =
      ap (λ t. listed (run_steps mix_h t x v2)) hh_steps_lem
      ∙ run_steps-rfc_round aux_h (λ i. (3 * i + 5) % 16) (4 ∷ 11 ∷ 16 ∷ 23 ∷ []) 16 32 x v2 turns_h
      ∙ ap (rfc_round aux_h (λ i. (3 * i + 5) % 16) (4 ∷ 11 ∷ 16 ∷ 23 ∷ []) 16 32 x) r2 in
    let r4 =
      ap (λ t. listed (run_steps mix_i t x v3)) ii_steps_lem
      ∙ run_steps-rfc_round aux_i (λ i. 7 * i % 16) (6 ∷ 10 ∷ 15 ∷ 21 ∷ []) 16 48 x v3 turns_i
      ∙ ap (rfc_round aux_i (λ i. 7 * i % 16) (6 ∷ 10 ∷ 15 ∷ 21 ∷ []) 16 48 x) r3 in
    ap (add_words (a ∷ b ∷ c ∷ d ∷ [])) r4
    ∙ ap
        (λ t. add_words (a ∷ b ∷ c ∷ d ∷ []) (
          rfc_round aux_i (λ i. 7 * i % 16) (6 ∷ 10 ∷ 15 ∷ 21 ∷ []) 16 48 t
            (rfc_round aux_h (λ i. (3 * i + 5) % 16) (4 ∷ 11 ∷ 16 ∷ 23 ∷ []) 16 32 t
              (rfc_round aux_g (λ i. (5 * i + 1) % 16) (5 ∷ 9 ∷ 14 ∷ 20 ∷ []) 16 16 t
                (rfc_round aux_f (λ i. i) (7 ∷ 12 ∷ 17 ∷ 22 ∷ []) 16 0 t (a ∷ b ∷ c ∷ d ∷ []))))))
        parsed
md5_transform-rfc_compress [] block e l h = absurd (omega arith)
md5_transform-rfc_compress (a ∷ []) block e l h = absurd (omega arith)
md5_transform-rfc_compress (a ∷ b ∷ []) block e l h = absurd (omega arith)
md5_transform-rfc_compress (a ∷ b ∷ c ∷ []) block e l h = absurd (omega arith)
md5_transform-rfc_compress (a ∷ b ∷ c ∷ d ∷ f ∷ state) block e l h = absurd (omega arith)

length-md5_transform : (state block : List ℕ) → IsState (md5_transform state block)
unfolding md5_transform
length-md5_transform state block = refl

chain-rfc_compress :
    (n : ℕ) (state m : List ℕ)
    → IsState state
    → 64 * n ≤ length m
    → All IsByte m
    → (chain md5_transform n state m ≡ chain rfc_compress n state m)
      × IsState (chain md5_transform n state m)
unfolding chain
chain-rfc_compress zero state m s l h = (refl, s)
chain-rfc_compress (suc n) state m s l h =
    let same =
      md5_transform-rfc_compress state (take 64 m) s (omega (arith, length-take 64 m))
        (All-take IsByte 64 m h) in
    let (rest, four_words) =
      chain-rfc_compress n (md5_transform state (take 64 m)) (drop 64 m)
        (length-md5_transform state (take 64 m)) (omega (arith, length-drop 64 m))
        (All-drop IsByte 64 m h) in
    (rest ∙ ap (λ t. chain rfc_compress n t (drop 64 m)) same, four_words)

little_endian-All : (n : ℕ) → All IsByte (little_endian n)
little_endian-All n =
    let byte : (k : ℕ) → IsByte (u8 (shr n k)) = λ k. omega arith in
    let first : IsByte (u8 n) = omega arith in
    (first, (byte 8, (byte 16, (byte 24, (byte 32, (byte 40, (byte 48, (byte 56, tt))))))))

pad-All : (m : List ℕ) → All IsByte m → All IsByte (pad m)
unfolding pad
pad-All m h =
    All-append IsByte (m ++ mark m) (little_endian (8 * length m))
      (All-append IsByte m (mark m) h
        (omega arith, All-replicate IsByte ((119 - length m % 64) % 64) 0 (omega arith)))
      (little_endian-All (8 * length m))

encode : (state : List ℕ) → IsState state → md5_encode 4 0 state ≡ write_words state
encode (a ∷ b ∷ c ∷ d ∷ []) e = md5_encode-write_words a b c d
encode [] e = absurd (omega arith)
encode (a ∷ []) e = absurd (omega arith)
encode (a ∷ b ∷ []) e = absurd (omega arith)
encode (a ∷ b ∷ c ∷ []) e = absurd (omega arith)
encode (a ∷ b ∷ c ∷ d ∷ f ∷ s) e = absurd (omega arith)

pub rfc1321-rfc_digest : (m : List ℕ) → All IsByte m → rfc1321 m ≡ rfc_digest m
unfolding rfc1321 rfc_digest
rfc1321-rfc_digest m h =
    let n = length (pad m) / 64 in
    let (same, four_words) =
      chain-rfc_compress n md5_initial_state (pad m) refl (omega arith) (pad-All m h) in
    encode (chain md5_transform n md5_initial_state (pad m)) four_words
    ∙ ap write_words (same ∙ ap (λ s. chain rfc_compress n s (pad m)) initial_lem)
