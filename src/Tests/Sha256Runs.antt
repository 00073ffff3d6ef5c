-- ===== src/Tests/Sha256Runs.antt =====
-- SHA-256 and HMAC of sha256.c on short messages.
use mathlib.Core.List.{flatten}
use stdc.Prelude.{arith, ℕ, ◌≡◌, refl, false, List, [], ◌∷◌, ◌++◌, length, take, replicate}
use stdc.Sha256.Context.{
  init, update_byte, update, zero_fill, store_length, encode_state, last_block, final,
}
use stdc.Sha256.Digest.{sha256_file-flatten}
use stdc.Sha256.Fips.{digest-fips_digest}
use stdc.Sha256.Hash.{
  digest, hex_digits, hex_encode, sha256_string, sha256_file, normalize_key, hmac_init, hmac_update,
  hmac_final, hmac_sha256, difference, secure_memequal, secure_memzero,
}
use stdc.Sha256.Hmac.{standard_hmac, hmac_sha256-standard_hmac}
use stdc.Sha256.Padding.{standard_digest, pad}
use stdc.Sha256.Standard.{
  root_loop, root_fraction, standard_constants, standard_initial, rotr, small_sigma0, small_sigma1,
  big_sigma0, big_sigma1, ch, maj, parse_words, write_words, schedule, standard_rounds, add_words,
  standard_compress, fips_digest,
}
use stdc.Prelude.Blocks.{chain}
use stdc.Sha256.Stream.{Streams, init-Streams, update-Streams}
use stdc.Sha256.Transform.{
  rotate_right, load_words, extend_words, round, rounds, load_vars, transform,
}

program : Unit {0}
unfolding init update_byte update zero_fill store_length encode_state last_block final digest
    hex_digits hex_encode sha256_string rotate_right load_words extend_words round rounds load_vars
    transform replicate secure_memequal difference secure_memzero hmac_sha256 hmac_final hmac_update
    hmac_init normalize_key
program = tt

-- What the block buffer happens to hold.
abbrev junk : List ℕ
junk = replicate 64 7

length-junk : length junk ≡ 64
unfolding program
length-junk = refl

abbrev abc : List ℕ
abc = b'a' ∷ b'b' ∷ b'c' ∷ []

-- The first words of the standard's digest of "abc".
digest_of_abc :
    take 8 (digest junk abc) ≡ 0xba ∷ 0x78 ∷ 0x16 ∷ 0xbf ∷ 0x8f ∷ 0x01 ∷ 0xcf ∷ 0xea ∷ []
unfolding program
digest_of_abc = refl

-- The description gives them too.
fips_digest_of_abc :
    take 8 (fips_digest abc) ≡ 0xba ∷ 0x78 ∷ 0x16 ∷ 0xbf ∷ 0x8f ∷ 0x01 ∷ 0xcf ∷ 0xea ∷ []
unfolding program chain pad root_loop root_fraction standard_constants standard_initial rotr
    small_sigma0 small_sigma1 big_sigma0 big_sigma1 ch maj parse_words write_words schedule
    standard_rounds add_words standard_compress fips_digest
fips_digest_of_abc = refl

digest-fips_digest_example : digest junk abc ≡ fips_digest abc
digest-fips_digest_example =
    digest-fips_digest junk abc length-junk (omega arith, (omega arith, (omega arith, tt)))

reading : Streams (update (init junk) abc) abc
reading = update-Streams abc (init junk) [] (init-Streams junk length-junk)

sha256_file-flatten_example :
    (sha256_file junk (abc ∷ abc ∷ []) ≡ hex_encode (standard_digest (abc ++ abc)))
    × (sha256_file junk (abc ∷ abc ∷ []) ≡ sha256_string junk (abc ++ abc))
unfolding flatten
sha256_file-flatten_example = sha256_file-flatten junk (abc ∷ abc ∷ []) length-junk

hmac_sha256-standard_hmac_example : hmac_sha256 junk abc abc ≡ standard_hmac abc abc
hmac_sha256-standard_hmac_example = hmac_sha256-standard_hmac junk abc abc length-junk

abbrev hello : List ℕ
hello = b'a' ∷ b'b' ∷ b'd' ∷ []

differing : secure_memequal abc hello 3 ≡ false
unfolding program
differing = refl
