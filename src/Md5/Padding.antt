-- ===== src/Md5/Padding.antt =====
-- The padded message of RFC 1321, and a digest over it apart from the streaming code of md5.c, with
-- the code's own first state, compression and order of bytes.
use stdc.Prelude.Blocks.{chain}
use stdc.Prelude.Word.{u8, shr}
use stdc.Prelude.{ℕ, ◌-◌, ◌*◌, ◌/◌, ◌%◌, List, [], ◌∷◌, ◌++◌, length, replicate}
use stdc.Md5.Context.{md5_initial_state, md5_encode}
use stdc.Md5.Transform.{md5_transform}

-- A 64-bit number, least significant byte first.
abbrev pub little_endian : ℕ → List ℕ
little_endian n =
    u8 n
    ∷ u8 (shr n 8)
    ∷ u8 (shr n 16)
    ∷ u8 (shr n 24)
    ∷ u8 (shr n 32)
    ∷ u8 (shr n 40)
    ∷ u8 (shr n 48)
    ∷ u8 (shr n 56)
    ∷ []

-- One bit, then the fewest zeros that leave eight bytes of the last block.
abbrev pub mark : List ℕ → List ℕ
mark m = 0x80 ∷ replicate ((119 - length m % 64) % 64) 0

unfoldable pub pad : List ℕ → List ℕ
pad m = (m ++ mark m) ++ little_endian (8 * length m)

unfoldable pub rfc1321 : List ℕ → List ℕ
rfc1321 m = md5_encode 4 0 (chain md5_transform (length (pad m) / 64) md5_initial_state (pad m))
