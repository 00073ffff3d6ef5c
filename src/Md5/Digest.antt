-- ===== src/Md5/Digest.antt =====
-- `md5_string` and `md5_file` against RFC 1321.
use mathlib.Core.List.{append-nil, append_assoc, flatten}
use stdc.Prelude.Word.{u32}
use stdc.Prelude.{
  ℕ, ◌+◌, ◌^◌, ◌≤◌, ◌<◌, ◌≡◌, refl, ap, ◌∙◌, List, [], ◌∷◌, ◌++◌, arith, length, take-all, All,
  All-append, subst, some,
}
use stdc.Md5.Agreement.{rfc1321-rfc_digest}
use stdc.Md5.Context.{ContextMd5, md5_update, md5_finalize, md5_string, md5_update_chunks, md5_file}
use stdc.Md5.Final.{md5_finalize-rfc1321}
use stdc.Md5.Hex.{hex_encode-hex_text}
use stdc.Md5.Standard.{rfc_digest, hex_text}
use stdc.Md5.Stream.{Streams, md5_init-Streams}
use stdc.Md5.Update.{md5_update-Streams}
use stdc.Md5.Words.{IsByte, write_words-All}
use stdc.Sha256.Hash.{hex_encode}

-- A whole list of bytes.
update_all-Streams :
    {ctx : ContextMd5} {m : List ℕ} (s : Streams ctx m) (input : List ℕ)
    → length input + 64 < 2 ^ 32
    → (after : ContextMd5) × ((md5_update ctx input (u32 (length input)) ≡ some after)
        × Streams after (m ++ input))
update_all-Streams {ctx} {m} s input h =
    let e : length input ≡ u32 (length input) = omega arith in
    let (after, (returned, held)) = md5_update-Streams s input (length input) (omega arith) h in
    (
      after,
      (
        subst (λ n. md5_update ctx input n ≡ some after) e returned,
        subst (λ t. Streams after (m ++ t)) (take-all (length input) input (omega arith)) held,
      ),
    )

md5_update_chunks-Streams :
    (chunks : List (List ℕ)) {ctx : ContextMd5} {m : List ℕ}
    → Streams ctx m
    → All (λ chunk. (length chunk ≤ 1024) × All IsByte chunk) chunks
    → (after : ContextMd5) × ((md5_update_chunks ctx chunks ≡ some after)
        × Streams after (m ++ flatten chunks))
unfolding md5_update_chunks flatten
md5_update_chunks-Streams [] {ctx} s h = rw append-nil (ctx, (refl, s))
md5_update_chunks-Streams (chunk ∷ chunks) {ctx} {m} s h =
    let (updated, (one, held)) = update_all-Streams s chunk (omega (arith, h.0.0)) in
    let (after, (rest, hashed)) = md5_update_chunks-Streams chunks held h.1 in
    (after, (rw one rest, subst (Streams after) (append_assoc m chunk (flatten chunks)) hashed))

flatten-All :
    (chunks : List (List ℕ))
    → All (λ chunk. (length chunk ≤ 1024) × All IsByte chunk) chunks
    → All IsByte (flatten chunks)
unfolding flatten
flatten-All [] h = tt
flatten-All (chunk ∷ chunks) h =
    All-append IsByte chunk (flatten chunks) h.0.1 (flatten-All chunks h.1)

-- The text of the digest of a message that a context holds.
finalize-hex_text :
    {ctx : ContextMd5} {m : List ℕ}
    → Streams ctx m
    → All IsByte m
    → (digest : List ℕ) × ((md5_finalize ctx ≡ some digest)
        × (hex_encode digest ≡ hex_text (rfc_digest m)))
finalize-hex_text {ctx} {m} s h = (
  rfc_digest m,
  (
    md5_finalize-rfc1321 s ∙ ap some (rfc1321-rfc_digest m h),
    hex_encode-hex_text (rfc_digest m) (unfold rfc_digest in write_words-All _),
  ),
)

-- With a buffer of 64 bytes, `md5_string` returns for a text of fewer than 2 ^ 32 - 64 bytes, and
-- writes the digest that RFC 1321 describes, in lower-case hexadecimal digits with a zero behind
-- them. The description has the RFC's own constants, rounds and order of bytes and uses nothing of
-- the code but the bitwise operations.
pub md5_string-rfc1321 :
    (junk m : List ℕ)
    → length junk ≡ 64
    → length m + 64 < 2 ^ 32
    → All IsByte m
    → md5_string junk m ≡ some (hex_text (rfc_digest m))
unfolding md5_string
md5_string-rfc1321 junk m j h bytes =
    let (ctx, (one, held)) = update_all-Streams (md5_init-Streams junk j) m h in
    let (digest, (two, text)) = finalize-hex_text held bytes in rw (one, two) (ap some text)

-- With a buffer of 64 bytes and reads of at most 1024 bytes, `md5_file` returns and writes the digest
-- that RFC 1321 describes of all the bytes read, in lower-case hexadecimal digits with a zero behind
-- them, however `fread` cuts the file and however long it is. The description has the RFC's own
-- constants, rounds and order of bytes and uses nothing of the code but the bitwise operations.
pub md5_file-rfc1321 :
    (junk : List ℕ) (chunks : List (List ℕ))
    → length junk ≡ 64
    → All (λ chunk. (length chunk ≤ 1024) × All IsByte chunk) chunks
    → md5_file junk chunks ≡ some (hex_text (rfc_digest (flatten chunks)))
unfolding md5_file
md5_file-rfc1321 junk chunks j h =
    let (ctx, (one, held)) = md5_update_chunks-Streams chunks (md5_init-Streams junk j) h in
    let (digest, (two, text)) = finalize-hex_text held (flatten-All chunks h) in
    rw (one, two) (ap some text)
