-- ===== src/Sha256/Stream.antt =====
-- What a context holds while `sha256_update` reads a message.
use mathlib.Core.List.{append-nil, append_assoc}
use stdc.Prelude.Word.{u64}
use stdc.Prelude.{
  ℕ, ◌+◌, ◌*◌, ◌<◌, ◌≡◌, refl, sym, ap, ap₂, ◌∙◌, inl, inr, List, [], ◌∷◌, ◌++◌, arith, length, set,
  drop, length-append, length-drop, length-set, set-end, drop-all, Bool-cases, ◌==◌,
}
use stdc.Sha256.Context.{Sha256Context, initial_state, init, update_byte, update}
use stdc.Sha256.Padding.{compress, compress-append, compress-one}
use stdc.Sha256.Transform.{transform}

-- The bytes so far are whole blocks, compressed into the state, and a rest that stands at the
-- start of the buffer.
pub record Streams (ctx : Sha256Context) (m : List ℕ) : Type 0 where
  pub done : List ℕ
  pub rest : List ℕ
  pub blocks : ℕ
  pub unused : List ℕ
  pub split : m ≡ done ++ rest
  pub whole : length done ≡ 64 * blocks
  pub partial : length rest ≡ ctx.block_length
  pub short : ctx.block_length < 64
  pub buffer : ctx.block ≡ rest ++ unused
  pub room : length rest + length unused ≡ 64
  pub counted : ctx.bit_length ≡ u64 (512 * blocks)
  pub hashed : ctx.state ≡ compress blocks initial_state done

pub init-Streams : (junk : List ℕ) → length junk ≡ 64 → Streams (init junk) []
unfolding init
init-Streams junk h = record {
  done = [];
  rest = [];
  blocks = 0;
  unused = junk;
  split = refl;
  whole = refl;
  partial = refl;
  short = omega arith;
  buffer = refl;
  room = omega arith;
  counted = refl;
  hashed = unfold compress in refl;
}

update_byte-Streams :
    {ctx : Sha256Context} {m : List ℕ} (x : ℕ)
    → Streams ctx m
    → Streams (update_byte ctx x) (m ++ x ∷ [])
unfolding update_byte
update_byte-Streams {ctx} {m} x s = elim (Bool-cases (ctx.block_length + 1 == 64)) [
  | inl full ↦
      let last : ctx.block_length ≡ 63 = ground arith in
      rw full record {
        done = s.done ++ (s.rest ++ x ∷ []);
        rest = [];
        blocks = s.blocks + 1;
        unused = set ctx.block ctx.block_length x;
        split = grown ∙ sym (append-nil _);
        whole = longer last;
        partial = refl;
        short = omega arith;
        buffer = refl;
        room = omega (arith, length-set ctx.block ctx.block_length x, length-block);
        counted = rw s.counted (omega arith);
        hashed = compressed last;
      }
  | inr partial ↦ rw partial record {
    done = s.done;
    rest = s.rest ++ x ∷ [];
    blocks = s.blocks;
    unused = drop 1 s.unused;
    split = grown;
    whole = s.whole;
    partial = omega (arith, length-append s.rest (x ∷ []));
    short = ground arith;
    buffer = written;
    room = omega (arith, length-append s.rest (x ∷ []), length-drop 1 s.unused);
    counted = s.counted;
    hashed = s.hashed;
  }
]
  where
    grown : m ++ x ∷ [] ≡ s.done ++ (s.rest ++ x ∷ [])
    grown = rw s.split (append_assoc s.done s.rest (x ∷ []))

    written : set ctx.block ctx.block_length x ≡ (s.rest ++ x ∷ []) ++ drop 1 s.unused
    written = rw s.buffer (set-end s.rest s.unused ctx.block_length x s.partial (omega arith))

    length-block : length ctx.block ≡ 64
    length-block = rw s.buffer (omega (arith, length-append s.rest s.unused))

    longer : ctx.block_length ≡ 63 → length (s.done ++ (s.rest ++ x ∷ [])) ≡ 64 * (s.blocks + 1)
    longer last =
        omega (arith, length-append s.done (s.rest ++ x ∷ []), length-append s.rest (x ∷ []))

    complete : ctx.block_length ≡ 63 → set ctx.block ctx.block_length x ≡ s.rest ++ x ∷ []
    complete last =
        written
        ∙ ap (λ t. (s.rest ++ x ∷ []) ++ t) (drop-all 1 s.unused (omega arith))
        ∙ append-nil (s.rest ++ x ∷ [])

    compressed :
        ctx.block_length ≡ 63
        → transform ctx.state (set ctx.block ctx.block_length x)
          ≡ compress (s.blocks + 1) initial_state (s.done ++ (s.rest ++ x ∷ []))
    compressed last =
        ap₂ transform s.hashed (complete last)
        ∙ sym (
            compress-one (compress s.blocks initial_state s.done) (s.rest ++ x ∷ [])
              (omega (arith, length-append s.rest (x ∷ []))))
        ∙ sym (compress-append s.blocks 1 initial_state s.done (s.rest ++ x ∷ []) s.whole)

-- On a context that holds a message, in whole blocks compressed into the state and a rest in the
-- buffer, `sha256_update` leaves a context that holds the message with the new bytes.
pub update-Streams :
    (input : List ℕ) (ctx : Sha256Context) (m : List ℕ)
    → Streams ctx m
    → Streams (update ctx input) (m ++ input)
unfolding update
update-Streams [] ctx m s = rw append-nil s
update-Streams (x ∷ input) ctx m s =
    rw (← append_assoc m (x ∷ []) input)
      (update-Streams input (update_byte ctx x) (m ++ x ∷ []) (update_byte-Streams x s))
