-- ===== src/Pdu/ImPdu/Prefix.antt =====
-- ImPdu::ReadPdu depends on the received bytes only, and not on what arrives behind the message.
use xx_chat.Base.{
  ℕ, zero, suc, ◌+◌, ◌≤◌, ◌<◌, ◌≡◌, refl, sym, ap, ◌∙◌, some, none, List, [], ◌∷◌, ◌++◌, length,
  take, drop, get_or, arith, Bool-cases, inl, inr, ltb, ◌==◌, ◌⊎◌, take-take_le, take-drop,
  take-append_le, length-append, ltb→lt, ==_iff,
}
use xx_chat.Pdu.SimpleBuffer
use xx_chat.Pdu.SimpleBuffer.{SimpleBuffer}
use xx_chat.Pdu.SimpleBuffer.Content.{write_cong}
use xx_chat.Pdu.Exception.{ok, throw, pdu_exception, PduException}
use xx_chat.Pdu.Words.{read_uint16, read_uint32}
use xx_chat.Pdu.ImPdu.{read_pdu}
use xx_chat.Pdu.ImPdu.Parse.{is_pdu_available-short, is_pdu_available-zero}
use xx_chat.Pdu.ImPdu.Read.{header_of, message_of, read_pdu-some}

abbrev pub length_is_zero : PduException
unfolding pdu_exception
length_is_zero = pdu_exception 1 "pdu_len is 0"

-- What `ReadPdu` does with `len` bytes.
pub data Verdict (buf : List ℕ) (len : ℕ) : Type 0 where
  waits : (len < 16) ⊎ (len < read_uint32 buf) → read_pdu buf len ≡ ok none → Verdict buf len
  fails : 16 ≤ len → read_uint32 buf ≡ 0 → read_pdu buf len ≡ throw length_is_zero → Verdict buf len
  reads :
      16 ≤ len
      → 0 < read_uint32 buf
      → read_uint32 buf ≤ len
      → read_pdu buf len ≡ ok (some (message_of buf (read_uint32 buf)))
      → Verdict buf len

pub read_pdu-Verdict : (buf : List ℕ) (len : ℕ) → Verdict buf len
unfolding read_pdu pdu_exception
read_pdu-Verdict buf len = elim (Bool-cases (ltb len 16)) [
  | inl short ↦
      let h : (len < 16) ⊎ (len < read_uint32 buf) = inl (ltb→lt len 16 short) in
      waits h (rw (is_pdu_available-short buf len h))
  | inr room ↦ elim (Bool-cases (ltb len (read_uint32 buf))) [
    | inl more ↦
        let h : (len < 16) ⊎ (len < read_uint32 buf) = inr (ltb→lt len (read_uint32 buf) more) in
        waits h (rw (is_pdu_available-short buf len h))
    | inr all ↦ elim (Bool-cases (read_uint32 buf == 0)) [
      | inl z ↦
          let e : read_uint32 buf ≡ 0 = (==_iff _ _).0 z in
          fails (ground arith) e (rw (is_pdu_available-zero buf len (ground arith) e))
      | inr z ↦
          reads (ground arith) (ground arith) (ground arith)
            (read_pdu-some buf len (ground arith) (ground arith) (ground arith))
    ]
  ]
]

get_or-take : (xs : List ℕ) (n i d : ℕ) → i < n → get_or (take n xs) i d ≡ get_or xs i d
get_or-take xs zero i d h = absurd (omega arith)
get_or-take [] (suc n) i d h = refl
get_or-take (x ∷ xs) (suc n) zero d h = refl
get_or-take (x ∷ xs) (suc n) (suc i) d h = get_or-take xs n i d (omega arith)

module _ (a b : List ℕ) (same : take 16 a ≡ take 16 b) where
  part : (k m : ℕ) → k + m ≤ 16 → take m (drop k a) ≡ take m (drop k b)
  part k m h =
      take-drop m k a
      ∙ ap (drop k)
          (sym (take-take_le (k + m) 16 a h) ∙ ap (take (k + m)) same ∙ take-take_le (k + m) 16 b h)
      ∙ sym (take-drop m k b)

  item : (i : ℕ) → i < 16 → get_or a i 0 ≡ get_or b i 0
  item i h = sym (get_or-take a 16 i 0 h) ∙ ap (λ xs. get_or xs i 0) same ∙ get_or-take b 16 i 0 h

  pub read_uint32_cong : read_uint32 a ≡ read_uint32 b
  unfolding read_uint32
  read_uint32_cong = omega (
    arith,
    item 0 (omega arith),
    item 1 (omega arith),
    item 2 (omega arith),
    item 3 (omega arith),
  )

  header_of_cong : header_of a ≡ header_of b
  header_of_cong = λ i. record {
    length = read_uint32 (part 0 4 (omega arith) i);
    version = read_uint16 (part 4 2 (omega arith) i);
    flag = read_uint16 (part 6 2 (omega arith) i);
    service_id = read_uint16 (part 8 2 (omega arith) i);
    command_id = read_uint16 (part 10 2 (omega arith) i);
    seq_num = read_uint16 (part 12 2 (omega arith) i);
    reversed = read_uint16 (part 14 2 (omega arith) i);
  }

  pub message_of_cong : (n : ℕ) → take n a ≡ take n b → message_of a n ≡ message_of b n
  message_of_cong n e =
      λ i. record { buf = write_cong SimpleBuffer.empty n a b e i; header = header_of_cong i }

-- Two blocks that agree in the bytes received so far read alike.
pub read_pdu_cong :
    (a b : List ℕ) (len : ℕ) → take len a ≡ take len b → read_pdu a len ≡ read_pdu b len
unfolding read_pdu pdu_exception
read_pdu_cong a b len e = elim (Bool-cases (ltb len 16)) [
  | inl short ↦ few a (inl (ltb→lt len 16 short)) ∙ sym (few b (inl (ltb→lt len 16 short)))
  | inr room ↦
      let same : take 16 a ≡ take 16 b =
        sym (take-take_le 16 len a (ground arith))
        ∙ ap (take 16) e
        ∙ take-take_le 16 len b (ground arith) in
      let n : read_uint32 a ≡ read_uint32 b = read_uint32_cong a b same in
      elim (read_pdu-Verdict a len) [
        | waits h r ↦ r ∙ sym (few b (ground (arith, n)))
        | fails h z r ↦ r ∙ sym (empty_header b h (sym n ∙ z))
        | reads h z l r ↦
            r
            ∙ ap (λ p. ok (some p))
                (message_of_cong a b same (read_uint32 a) (
                    sym (take-take_le (read_uint32 a) len a l)
                    ∙ ap (take (read_uint32 a)) e
                    ∙ take-take_le (read_uint32 a) len b l)
                  ∙ ap (message_of b) n)
            ∙ sym (read_pdu-some b len h (omega (arith, n)) (omega (arith, n)))
      ]
]
  where
    few : (xs : List ℕ) → (len < 16) ⊎ (len < read_uint32 xs) → read_pdu xs len ≡ ok none
    few xs h = rw (is_pdu_available-short xs len h)

    empty_header :
        (xs : List ℕ) → 16 ≤ len → read_uint32 xs ≡ 0 → read_pdu xs len ≡ throw length_is_zero
    empty_header xs h z = rw (is_pdu_available-zero xs len h z)

-- Bytes that come behind do not change what is read of a full header and message.
pub read_pdu-append :
    (xs ys : List ℕ)
    → 16 ≤ length xs
    → 0 < read_uint32 xs
    → read_uint32 xs ≤ length xs
    → read_pdu (xs ++ ys) (length (xs ++ ys)) ≡ ok (some (message_of xs (read_uint32 xs)))
read_pdu-append xs ys h z l =
    let same : take 16 (xs ++ ys) ≡ take 16 xs = take-append_le 16 xs ys h in
    let n : read_uint32 (xs ++ ys) ≡ read_uint32 xs = read_uint32_cong (xs ++ ys) xs same in
    let k = length-append xs ys in
    read_pdu-some (xs ++ ys) (length (xs ++ ys)) (omega (arith, k)) (omega (arith, n))
      (omega (arith, n, k))
    ∙ ap (λ m. ok (some (message_of (xs ++ ys) m))) n
    ∙ ap (λ p. ok (some p))
        (message_of_cong (xs ++ ys) xs same (read_uint32 xs)
          (take-append_le (read_uint32 xs) xs ys l))

pub read_pdu-append_zero :
    (xs ys : List ℕ)
    → 16 ≤ length xs
    → read_uint32 xs ≡ 0
    → read_pdu (xs ++ ys) (length (xs ++ ys)) ≡ throw length_is_zero
unfolding read_pdu pdu_exception
read_pdu-append_zero xs ys h z =
    let same : take 16 (xs ++ ys) ≡ take 16 xs = take-append_le 16 xs ys h in
    let n : read_uint32 (xs ++ ys) ≡ read_uint32 xs = read_uint32_cong (xs ++ ys) xs same in
    rw (
      is_pdu_available-zero (xs ++ ys) (length (xs ++ ys)) (omega (arith, length-append xs ys))
        (omega (arith, n)))
