-- ===== src/Pdu/Words.antt =====
-- The static functions ByteStream::ReadInt16 to ByteStream::WriteUint32 of
-- xx_chat_server/src/base/util_pdu.cpp: words in network byte order, on a block of memory.
-- An intN_t is the number that its bit pattern stands for as an uintN_t. The bytes that the source
-- joins by `|` share no bits, so `+` joins them.
pub mod RoundTrip
use xx_chat.Base.{ℕ, ◌+◌, ◌*◌, ◌/◌, ◌%◌, List, [], ◌∷◌, get_or, write_at}

-- The bytes that the writers store, first byte first.
unfoldable pub bytes16 : ℕ → List ℕ
bytes16 n = (n / 256) % 256 ∷ n % 256 ∷ []

unfoldable pub bytes32 : ℕ → List ℕ
bytes32 n = (n / 16777216) % 256 ∷ (n / 65536) % 256 ∷ (n / 256) % 256 ∷ n % 256 ∷ []

unfoldable pub read_int16 : List ℕ → ℕ
read_int16 buf = get_or buf 0 0 * 256 + get_or buf 1 0

unfoldable pub read_uint16 : List ℕ → ℕ
read_uint16 buf = get_or buf 0 0 * 256 + get_or buf 1 0

unfoldable pub read_int32 : List ℕ → ℕ
read_int32 buf =
    get_or buf 0 0 * 16777216 + get_or buf 1 0 * 65536 + get_or buf 2 0 * 256 + get_or buf 3 0

unfoldable pub read_uint32 : List ℕ → ℕ
read_uint32 buf =
    get_or buf 0 0 * 16777216 + get_or buf 1 0 * 65536 + get_or buf 2 0 * 256 + get_or buf 3 0

-- A writer's pointer is a block and the offset into it.
unfoldable pub write_int16 : List ℕ → ℕ → ℕ → List ℕ
write_int16 buf at_ n = write_at buf at_ (bytes16 n)

unfoldable pub write_uint16 : List ℕ → ℕ → ℕ → List ℕ
write_uint16 buf at_ n = write_at buf at_ (bytes16 n)

unfoldable pub write_int32 : List ℕ → ℕ → ℕ → List ℕ
write_int32 buf at_ n = write_at buf at_ (bytes32 n)

unfoldable pub write_uint32 : List ℕ → ℕ → ℕ → List ℕ
write_uint32 buf at_ n = write_at buf at_ (bytes32 n)
