-- ===== src/Pdu/Words/RoundTrip.antt =====
-- A word that is written is read back.
use xx_chat.Base.{ℕ, ◌^◌, ◌<◌, ◌≡◌, refl, List, ◌++◌, length, arith}
use xx_chat.Pdu.Words.{bytes16, bytes32, read_uint16, read_uint32}

pub length-bytes16 : (n : ℕ) → length (bytes16 n) ≡ 2
unfolding bytes16
length-bytes16 n = refl

pub length-bytes32 : (n : ℕ) → length (bytes32 n) ≡ 4
unfolding bytes32
length-bytes32 n = refl

pub read_uint16-bytes16 : (n : ℕ) (rest : List ℕ) → n < 2 ^ 16 → read_uint16 (bytes16 n ++ rest) ≡ n
unfolding bytes16 read_uint16
read_uint16-bytes16 n rest h = omega arith

pub read_uint32-bytes32 : (n : ℕ) (rest : List ℕ) → n < 2 ^ 32 → read_uint32 (bytes32 n ++ rest) ≡ n
unfolding bytes32 read_uint32
read_uint32-bytes32 n rest h = omega arith
