-- ===== src/Sha256/Digest.antt =====
-- The one-call functions against the standard's digest.
use mathlib.Core.List.{flatten}
use stdc.Prelude.{ℕ, ◌≡◌, refl, sym, ap, ◌∙◌, List, [], ◌∷◌, ◌++◌, length}
use stdc.Sha256.Context.{Sha256Context, init, update, final}
use stdc.Sha256.Final.{final-standard_digest}
use stdc.Sha256.Hash.{digest, hex_encode, sha256_string, sha256_file, update_chunks}
use stdc.Sha256.Padding.{standard_digest}
use stdc.Sha256.Stream.{init-Streams, update-Streams}

-- `sha256_init`, `sha256_update` and `sha256_final` compute the standard's digest, whatever the 64
-- bytes of the block buffer held before.
pub digest-standard_digest :
    (junk m : List ℕ) → length junk ≡ 64 → digest junk m ≡ standard_digest m
unfolding digest
digest-standard_digest junk m h =
    final-standard_digest (update-Streams m (init junk) [] (init-Streams junk h))

pub update-append :
    (a b : List ℕ) (ctx : Sha256Context) → update ctx (a ++ b) ≡ update (update ctx a) b
unfolding update
update-append [] b ctx = refl
update-append (x ∷ a) b ctx = update-append a b _

update_chunks-flatten :
    (chunks : List (List ℕ)) (ctx : Sha256Context)
    → update_chunks ctx chunks ≡ update ctx (flatten chunks)
unfolding update_chunks flatten
update_chunks-flatten [] ctx = unfold update in refl
update_chunks-flatten (chunk ∷ chunks) ctx =
    update_chunks-flatten chunks (update ctx chunk) ∙ sym (update-append chunk (flatten chunks) ctx)

-- With a block buffer of 64 bytes, `sha256_file` returns, however `fread` cuts the file, the
-- hexadecimal form of the standard's digest of the bytes that it read: what `sha256_string`
-- returns for them.
pub sha256_file-flatten :
    (junk : List ℕ) (chunks : List (List ℕ))
    → length junk ≡ 64
    → (sha256_file junk chunks ≡ hex_encode (standard_digest (flatten chunks)))
      × (sha256_file junk chunks ≡ sha256_string junk (flatten chunks))
unfolding sha256_file sha256_string
sha256_file-flatten junk chunks h =
    let same : (final (update_chunks (init junk) chunks)).0 ≡ digest junk (flatten chunks) =
      unfold digest in ap (λ c. (final c).0) (update_chunks-flatten chunks (init junk)) in
    (ap hex_encode (same ∙ digest-standard_digest junk (flatten chunks) h), ap hex_encode same)
