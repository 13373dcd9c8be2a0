-- ===== src/Replay/Keys.antt =====
-- The replay keys and file names of crates/sts-replay/src/lib.rs. SHA-256 is the sha2 crate's: the
-- functions take it as an argument, the digest of a text's UTF-8 bytes.
pub mod Distinct
use Prim.Native.Char.{Char, nul}
use Prim.Native.String
use sts_delegate_rs.Prelude.{ℕ, ◌/◌, ◌%◌, String, List, [], ◌∷◌, ◌⧺◌, zero, suc}

-- The characters of `b"0123456789abcdef"`.
unfoldable pub hex_digit : ℕ → Char
hex_digit zero = "0"
hex_digit (suc zero) = "1"
hex_digit (suc (suc zero)) = "2"
hex_digit (suc (suc (suc zero))) = "3"
hex_digit (suc (suc (suc (suc zero)))) = "4"
hex_digit (suc (suc (suc (suc (suc zero))))) = "5"
hex_digit (suc (suc (suc (suc (suc (suc zero)))))) = "6"
hex_digit (suc (suc (suc (suc (suc (suc (suc zero))))))) = "7"
hex_digit (suc (suc (suc (suc (suc (suc (suc (suc zero)))))))) = "8"
hex_digit (suc (suc (suc (suc (suc (suc (suc (suc (suc zero))))))))) = "9"
hex_digit (suc (suc (suc (suc (suc (suc (suc (suc (suc (suc zero)))))))))) = "a"
hex_digit (suc (suc (suc (suc (suc (suc (suc (suc (suc (suc (suc zero))))))))))) = "b"
hex_digit (suc (suc (suc (suc (suc (suc (suc (suc (suc (suc (suc (suc zero)))))))))))) = "c"
hex_digit (suc (suc (suc (suc (suc (suc (suc (suc (suc (suc (suc (suc (suc zero))))))))))))) = "d"
hex_digit (suc (suc (suc (suc (suc (suc (suc (suc (suc (suc (suc (suc (suc (suc zero)))))))))))))) =
    "e"
hex_digit _ = "f"

-- `byte >> 4` and `byte & 0x0f` index the table.
unfoldable pub hex_lower : List ℕ → String
unfolding hex_digit
hex_lower [] = ""
hex_lower (byte ∷ bytes) =
    String.◌∷◌ (hex_digit (byte / 16)) (String.◌∷◌ (hex_digit (byte % 16)) (hex_lower bytes))

-- The text that is hashed: its parts with a NUL between them.
abbrev pub nul_separated : String → String → String
nul_separated s t = s ⧺ String.◌∷◌ nul t

module _ (sha256 : String → List ℕ) where
  unfoldable pub dpop_replay_key : String → String → String
  dpop_replay_key jkt jti = "dpop:" ⧺ hex_lower (sha256 (nul_separated jkt jti))

  unfoldable pub replay_filename : String → String
  replay_filename jti = hex_lower (sha256 (nul_separated "sts-replay-file-v1" jti)) ⧺ ".jti"
