-- ===== src/Md5/Update.antt =====
-- `__md5_update__` keeps what a context holds.
use mathlib.Core.List.{append-nil, append_assoc}
use stdc.Prelude.Blocks.{chain, chain-append, chain-one, chain-prefix, copy_into, copy_into-append}
use stdc.Prelude.{
  ℕ, ◌+◌, ◌-◌, ◌*◌, ◌/◌, ◌^◌, ◌≤◌, ◌<◌, ◌≡◌, refl, sym, ap, ap₂, ◌∙◌, inl, inr, List, [], ◌++◌,
  arith, length, take, drop, length-append, length-drop, length-take, drop-drop, take-append-drop,
  take-add, drop-all, Bool-cases, leb, subst, some,
}
use stdc.Md5.Context.{ContextMd5, md5_initial_state, index_of, count_bytes, md5_update}
use stdc.Md5.Stream.{Counts, Streams, count_bytes-Counts, index_of_lem, md5_transform_loop-chain}
use stdc.Md5.Transform.{md5_transform}

module _ {ctx : ContextMd5} {m : List ℕ} (s : Streams ctx m) (input : List ℕ) (n : ℕ)
    (fits : n ≤ length input) where
  length-taken : (k : ℕ) → k ≤ n → length (take k input) ≡ k
  length-taken k h = omega (arith, length-take k input)

  length-message : length m ≡ 64 * s.blocks + length s.rest
  length-message = omega (arith, ap length s.split, length-append s.done s.rest)

  length-grown : length (m ++ take n input) ≡ length m + n
  length-grown = omega (arith, length-append m (take n input), length-taken n (omega arith))

  index_is : index_of ctx ≡ length s.rest
  index_is =
      index_of_lem ctx s.blocks (length s.rest) s.short
        (subst (Counts ctx) length-message s.counted)

  counted : n < 2 ^ 32 → Counts (count_bytes ctx n) (length (m ++ take n input))
  counted h =
      subst (Counts (count_bytes ctx n)) (sym length-grown)
        (count_bytes-Counts ctx (length m) n h s.counted)

  -- What the copy leaves in the buffer.
  copied :
      (k : ℕ)
      → k ≤ n
      → k + length s.rest ≤ 64
      → copy_into ctx.buffer (length s.rest) (take k input)
        ≡ (s.rest ++ take k input) ++ drop k s.unused
  copied k h room =
      let len = length-taken k h in
      ap (λ t. copy_into t (length s.rest) (take k input)) s.buffered
      ∙ copy_into-append (take k input) s.rest s.unused (length s.rest) refl (omega (arith, s.room))
      ∙ ap (λ t. (s.rest ++ take k input) ++ drop t s.unused) len

  -- The bytes complete no block.
  update_short :
      n < 2 ^ 32
      → n < 64 - length s.rest
      → Streams
          (record (count_bytes ctx n) {
            buffer = copy_into ctx.buffer (length s.rest) (take n input);
          })
          (m ++ take n input)
  update_short h few =
      let len = length-taken n (omega arith) in
      let grown = length-append s.rest (take n input) in
      record {
        done = s.done;
        rest = s.rest ++ take n input;
        blocks = s.blocks;
        unused = drop n s.unused;
        split = ap (λ t. t ++ take n input) s.split ∙ append_assoc s.done s.rest (take n input);
        whole = s.whole;
        buffered = copied n (omega arith) (omega arith);
        room = omega (arith, grown, len, length-drop n s.unused, s.room);
        short = omega (arith, grown, len);
        counted = (let c = counted h in record { low = c.low; high = c.high; bits = c.bits });
        hashed = unfold count_bytes in s.hashed;
      }

  module _ (many : 64 - length s.rest ≤ n) where
    abbrev part : ℕ
    part = 64 - length s.rest

    abbrev more : ℕ
    more = (n - part) / 64

    abbrev first : List ℕ
    first = s.rest ++ take part input

    abbrev body : List ℕ
    body = take (64 * more) (drop part input)

    abbrev tail : List ℕ
    tail = take (n - (part + 64 * more)) (drop (part + 64 * more) input)

    length-first : length first ≡ 64
    length-first =
        omega (arith, length-append s.rest (take part input), length-taken part many, s.short)

    length-body : length body ≡ 64 * more
    length-body = omega (arith, length-take (64 * more) (drop part input), length-drop part input)

    length-tail : length tail ≡ n - (part + 64 * more)
    length-tail = omega (
      arith,
      length-take (n - (part + 64 * more)) (drop (part + 64 * more) input),
      length-drop (part + 64 * more) input,
    )

    filled : copy_into ctx.buffer (length s.rest) (take part input) ≡ first
    filled =
        copied part many (omega (arith, s.short))
        ∙ ap (λ t. first ++ t) (drop-all part s.unused (omega (arith, s.room)))
        ∙ append-nil first

    cut : take n input ≡ take part input ++ (body ++ tail)
    cut =
        let e : part + (n - part) ≡ n = omega arith in
        let d : 64 * more + (n - (part + 64 * more)) ≡ n - part = omega arith in
        ap (λ t. take t input) (sym e)
        ∙ take-add part (n - part) input
        ∙ ap (λ t. take part input ++ take t (drop part input)) (sym d)
        ∙ ap (λ t. take part input ++ t)
            (take-add (64 * more) (n - (part + 64 * more)) (drop part input))
        ∙ ap (λ t. take part input ++ (body ++ take (n - (part + 64 * more)) t))
            (drop-drop part (64 * more) input)

    compressed :
        chain md5_transform more (md5_transform ctx.state first) (drop part input)
        ≡ chain md5_transform (s.blocks + 1 + more) md5_initial_state ((s.done ++ first) ++ body)
    compressed =
        ap (chain md5_transform more (md5_transform ctx.state first))
          (sym (take-append-drop (64 * more) (drop part input)))
        ∙ chain-prefix md5_transform more (md5_transform ctx.state first) body
            (drop (64 * more) (drop part input)) length-body
        ∙ ap (λ t. chain md5_transform more t body)
            (ap (λ t. md5_transform t first) s.hashed
              ∙ sym (
                  chain-one md5_transform (chain md5_transform s.blocks md5_initial_state s.done)
                    first length-first)
              ∙ sym (chain-append md5_transform s.blocks 1 md5_initial_state s.done first s.whole))
        ∙ sym (
            chain-append md5_transform (s.blocks + 1) more md5_initial_state (s.done ++ first) body
              (omega (arith, length-append s.done first, length-first, s.whole)))

    update_long :
        n < 2 ^ 32
        → Streams
            (record (count_bytes ctx n) {
              state = chain md5_transform more (md5_transform ctx.state first) (drop part input);
              buffer = copy_into first 0 tail;
            })
            (m ++ take n input)
    update_long h = record {
      done = (s.done ++ first) ++ body;
      rest = tail;
      blocks = s.blocks + 1 + more;
      unused = drop (length tail) first;
      split = ap₂ ◌++◌ s.split cut ∙ simp append_assoc;
      whole = omega (
        arith,
        length-append (s.done ++ first) body,
        length-append s.done first,
        length-first,
        length-body,
        s.whole,
      );
      buffered = copy_into-append tail [] first 0 refl (omega (arith, length-tail, length-first));
      room = omega (arith, length-tail, length-drop (length tail) first, length-first);
      short = omega (arith, length-tail);
      counted = (let c = counted h in record { low = c.low; high = c.high; bits = c.bits });
      hashed = compressed;
    }

  -- On a context that holds a message, `__md5_update__` returns and leaves one that holds the message
  -- with the first `length` bytes of the input, for a length below 2 ^ 32 - 64.
  pub md5_update-Streams :
      n + 64 < 2 ^ 32
      → (after : ContextMd5) × ((md5_update ctx input n ≡ some after)
          × Streams after (m ++ take n input))
  unfolding md5_update
  md5_update-Streams h = elim (Bool-cases (leb (64 - length s.rest) n)) [
    | inr few ↦ rw (index_is, few) (_, (refl, update_short (omega arith) (ground arith)))
    | inl go ↦
        let many : 64 - length s.rest ≤ n = ground arith in
        let whole =
          md5_transform_loop-chain (n / 64 + 1) (more many) (part many) n
            (md5_transform ctx.state (first many)) input h (omega arith) (omega arith)
            (omega arith) in
        rw (index_is, go, filled many, whole) (_, (refl, update_long many (omega arith)))
  ]
