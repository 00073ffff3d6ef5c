-- ===== src/Tests/Md5Runs.antt =====
-- md5.c on short messages.
use mathlib.Core.List.{flatten}
use stdc.Prelude.Blocks.{copy_into, chain}
use stdc.Prelude.{
  All, Option, none, some, ℕ, ◌≡◌, refl, List, [], ◌∷◌, length, take, replicate, ◌-◌, ◌^◌, arith,
}
use stdc.Md5.Context.{
  md5_initial_state, md5_init, count_bytes, md5_transform_loop, md5_update, md5_encode,
  md5_finalize, md5_string, md5_update_chunks, md5_file,
}
use stdc.Md5.Digest.{md5_string-rfc1321, md5_file-rfc1321}
use stdc.Md5.Endless.{md5_transform_loop-endless}
use stdc.Md5.Standard.{
  sine_loop, distance, sine_word, parse_words, write_words, rotl, aux_f, aux_g, aux_h, aux_i,
  rfc_round, add_words, rfc_compress, rfc_digest, hex_digit, hex_text,
}
use stdc.Md5.Words.{IsByte}
use stdc.Md5.Padding.{rfc1321, pad}
use stdc.Md5.Transform.{
  md5_decode, rotate_left, mix_f, mix_g, mix_h, mix_i, apply_step, run_steps, md5_transform,
}
use stdc.Sha256.Hash.{hex_digits, hex_encode}

program : Unit {0}
unfolding copy_into md5_init count_bytes md5_transform_loop md5_update md5_encode md5_finalize
    md5_string md5_update_chunks md5_file md5_decode rotate_left mix_f mix_g mix_h mix_i apply_step
    run_steps md5_transform hex_digits hex_encode replicate chain pad rfc1321
program = tt

abbrev junk : List ℕ
junk = replicate 64 7

length-junk : length junk ≡ 64
unfolding program
length-junk = refl

abbrev abc : List ℕ
abc = b'a' ∷ b'b' ∷ b'c' ∷ []

first_digits : Option (List ℕ) → Option (List ℕ)
first_digits none = none
first_digits (some text) = some (take 8 text)

-- The first digits of the test value of RFC 1321.
md5_of_abc :
    first_digits (md5_string junk abc)
    ≡ some (b'9' ∷ b'0' ∷ b'0' ∷ b'1' ∷ b'5' ∷ b'0' ∷ b'9' ∷ b'8' ∷ [])
unfolding program first_digits
md5_of_abc = refl

-- The description gives the same value.
rfc_digest_of_abc :
    hex_text (rfc_digest abc)
    ≡ b'9' ∷ b'0' ∷ b'0' ∷ b'1' ∷ b'5' ∷ b'0' ∷ b'9' ∷ b'8' ∷ b'3' ∷ b'c' ∷ b'd' ∷ b'2' ∷ b'4'
      ∷ b'f' ∷ b'b' ∷ b'0' ∷ b'd' ∷ b'6' ∷ b'9' ∷ b'6' ∷ b'3' ∷ b'f' ∷ b'7' ∷ b'd' ∷ b'2' ∷ b'8'
      ∷ b'e' ∷ b'1' ∷ b'7' ∷ b'f' ∷ b'7' ∷ b'2' ∷ 0 ∷ []
unfolding program sine_loop distance sine_word parse_words write_words rotl aux_f aux_g aux_h aux_i
    rfc_round add_words rfc_compress rfc_digest hex_digit hex_text
rfc_digest_of_abc = refl

-- A message that fills blocks, and one whose length needs a block of its own.
md5_of_long :
    md5_string junk (replicate 130 b'x') ≡ some (hex_encode (rfc1321 (replicate 130 b'x')))
unfolding program
md5_of_long = refl

md5_of_60 : md5_string junk (replicate 60 b'x') ≡ some (hex_encode (rfc1321 (replicate 60 b'x')))
unfolding program
md5_of_60 = refl

abc-All : All IsByte abc
abc-All = (omega arith, (omega arith, (omega arith, tt)))

md5_string-rfc1321_example : md5_string junk abc ≡ some (hex_text (rfc_digest abc))
md5_string-rfc1321_example = md5_string-rfc1321 junk abc length-junk (omega arith) abc-All

md5_file-rfc1321_example :
    md5_file junk (abc ∷ abc ∷ []) ≡ some (hex_text (rfc_digest (flatten (abc ∷ abc ∷ []))))
md5_file-rfc1321_example =
    md5_file-rfc1321 junk (abc ∷ abc ∷ []) length-junk
      ((omega arith, abc-All), ((omega arith, abc-All), tt))

md5_transform_loop-endless_example :
    md5_transform_loop 3 (2 ^ 32 - 64) (2 ^ 32 - 1) md5_initial_state junk ≡ none
md5_transform_loop-endless_example =
    md5_transform_loop-endless 3 (2 ^ 32 - 64) (2 ^ 32 - 1) md5_initial_state junk (omega arith)
      (omega arith) (omega arith) (omega arith)
