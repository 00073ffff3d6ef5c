-- ===== src/Sha256/Hmac.antt =====
-- HMAC in sha256.c against the construction of RFC 2104 over the standard's digest.
use stdc.Prelude.Word.{bit_xor}
use stdc.Prelude.{
  ℕ, ◌-◌, ◌≡◌, refl, sym, ap, ◌∙◌, List, [], ◌∷◌, ◌++◌, map, length, replicate, ltb, if◌then◌else◌,
}
use stdc.Sha256.Context.{init, update, final}
use stdc.Sha256.Digest.{digest-standard_digest, update-append}
use stdc.Sha256.Hash.{
  Hmac256Context, digest, normalize_key, hmac_init, hmac_update, hmac_final, hmac_sha256,
}
use stdc.Sha256.Padding.{standard_digest}

-- The key as one block: a long key is hashed first.
unfoldable pub block_key : List ℕ → List ℕ
block_key key =
    if ltb 64 (length key)
    then standard_digest key ++ replicate 32 0
    else key ++ replicate (64 - length key) 0

-- `H((K ^ opad) || H((K ^ ipad) || m))`
unfoldable pub standard_hmac : List ℕ → List ℕ → List ℕ
standard_hmac key m =
    let inner = map (λ x. bit_xor x 0x36) (block_key key) in
    let outer = map (λ x. bit_xor x 0x5c) (block_key key) in
    standard_digest (outer ++ standard_digest (inner ++ m))

unfoldable pub hmac_updates : Hmac256Context → List (List ℕ) → Hmac256Context
hmac_updates ctx [] = ctx
hmac_updates ctx (chunk ∷ chunks) = hmac_updates (hmac_update ctx chunk) chunks

normalize_key_lem : (junk key : List ℕ) → length junk ≡ 64 → normalize_key junk key ≡ block_key key
unfolding normalize_key block_key
normalize_key_lem junk key h = rw (digest-standard_digest junk key h) refl

two_updates :
    (junk a b : List ℕ)
    → length junk ≡ 64
    → (final (update (update (init junk) a) b)).0 ≡ standard_digest (a ++ b)
two_updates junk a b h =
    let whole : (final (update (init junk) (a ++ b))).0 ≡ standard_digest (a ++ b) =
      unfold digest in digest-standard_digest junk (a ++ b) h in
    ap (λ c. (final c).0) (sym (update-append a b (init junk))) ∙ whole

-- `hmac_sha256` computes the HMAC of RFC 2104 over the standard's digest for a key of any length,
-- whatever the 64 bytes of the block buffers held before.
pub hmac_sha256-standard_hmac :
    (junk key m : List ℕ) → length junk ≡ 64 → hmac_sha256 junk key m ≡ standard_hmac key m
unfolding hmac_sha256 hmac_final hmac_update hmac_init standard_hmac
hmac_sha256-standard_hmac junk key m h =
    let pads : normalize_key junk key ≡ block_key key = normalize_key_lem junk key h in
    let inner = map (λ x. bit_xor x 0x36) (normalize_key junk key) in
    let outer = map (λ x. bit_xor x 0x5c) (normalize_key junk key) in
    two_updates junk outer (final (update (update (init junk) inner) m)).0 h
    ∙ ap (λ t. standard_digest (outer ++ t)) (two_updates junk inner m h)
    ∙ ap
        (λ k.
          standard_digest
            (map (λ x. bit_xor x 0x5c) k ++ standard_digest (map (λ x. bit_xor x 0x36) k ++ m)))
        pads
