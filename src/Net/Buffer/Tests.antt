-- ===== src/Net/Buffer/Tests.antt =====
-- The theorems on Buffer at concrete values.
use xx_chat.Base.{◌≡◌, some, [], ◌∷◌, take, arith}
use xx_chat.Net.Buffer.{Buffer, append, read_fd}
use xx_chat.Net.Buffer.Content.{content, Appends, append-Appends}
use xx_chat.Net.Buffer.Reading.{read_fd-Appends}
use xx_chat.Net.Buffer.Int.{Width, prepend_of, peek_of, read_of, read_of-prepend_of}

-- Two readable bytes behind nine free ones.
abbrev used : Buffer
used = record {
  buffer = 0 ∷ 0 ∷ 0 ∷ 0 ∷ 0 ∷ 0 ∷ 0 ∷ 0 ∷ 1 ∷ 2 ∷ 3 ∷ 0 ∷ [];
  reader_index = 9;
  writer_index = 11;
}

append-Appends_example :
    (r : Buffer) × (append used (4 ∷ 5 ∷ 6 ∷ []) 3 ≡ some r)
    × Appends used (take 3 (4 ∷ 5 ∷ 6 ∷ [])) r
append-Appends_example =
    append-Appends used (4 ∷ 5 ∷ 6 ∷ []) 3 (omega arith) (omega arith) (omega arith)

read_fd-Appends_example :
    (r : Buffer) × (read_fd used (some (4 ∷ 5 ∷ 6 ∷ [])) ≡ some r) × Appends used (4 ∷ 5 ∷ 6 ∷ []) r
read_fd-Appends_example = read_fd-Appends used (4 ∷ 5 ∷ 6 ∷ []) (omega arith) (omega arith)

read_of-prepend_of_example :
    (r s : Buffer) × (prepend_of Width.int32 used 2864434397 ≡ some r)
    × (peek_of Width.int32 r ≡ some 2864434397)
    × (read_of Width.int32 r ≡ some (2864434397, s))
    × (content s ≡ content used)
read_of-prepend_of_example =
    read_of-prepend_of Width.int32 used 2864434397 (omega arith) (omega arith) (omega arith)
      (omega arith)
