-- ===== src/Conn/Framing.antt =====
-- The messages that a stream of bytes holds, and how ImConn::OnRead finds them whatever the sizes of
-- the reads.
use xx_chat.Base.{
  ℕ, zero, suc, ◌≤◌, ◌<◌, ◌≡◌, refl, ap, ◌∙◌, inl, inr, Option, some, none, List, length, drop,
  arith, take-take_le, length-drop, Option-cases,
}
use xx_chat.Pdu.SimpleBuffer
use xx_chat.Pdu.SimpleBuffer.{SimpleBuffer}
use xx_chat.Pdu.SimpleBuffer.Content.{content, IsValid, length-content}
use xx_chat.Pdu.SimpleBuffer.Reading.{Reads, read-Reads}
use xx_chat.Pdu.Words.{read_uint32}
use xx_chat.Pdu.Exception.{PduException, ok, throw}
use xx_chat.Pdu.ImPdu.{ImPdu, get_length, read_pdu}
use xx_chat.Pdu.ImPdu.Read.{message_of, message_of_lem}
use xx_chat.Pdu.ImPdu.Prefix.{waits, fails, reads, read_pdu-Verdict, read_pdu_cong}
use xx_chat.Conn.{Handler, parse_loop}
use xx_chat.Conn.Input.{Grows}

module _ {S : Type 0} (handle : Handler S) where
  -- The messages of a list of bytes, handled in order: the handler's state, the bytes that are
  -- left, and an exception.
  unfoldable pub frames_from : ℕ → List ℕ → S → S × List ℕ × Option PduException
  frames_from zero xs s = (s, xs, none)
  frames_from (suc fuel) xs s = elim (read_pdu xs (length xs)) [
    | throw e ↦ (s, xs, some e)
    | ok none ↦ (s, xs, none)
    | ok (some p) ↦
        let (s', thrown) = handle p s in
        elim thrown [
          | some e ↦ (s', xs, some e)
          | none ↦ frames_from fuel (drop (get_length p) xs) s'
        ]
  ]

  -- Enough fuel: each round consumes a byte.
  unfoldable pub frames : List ℕ → S → S × List ℕ × Option PduException
  frames xs s = frames_from (suc (length xs)) xs s

  -- The loop of `OnRead` and the reading of its buffer's content end alike.
  abbrev pub Agrees :
      S × SimpleBuffer × Option PduException → S × List ℕ × Option PduException → Type 0
  Agrees a b = (a.0 ≡ b.0) × (content a.1 ≡ b.1) × (a.2 ≡ b.2) × IsValid a.1

  pub parse_loop-Agrees :
      (fuel : ℕ) (b : SimpleBuffer) (s : S)
      → IsValid b
      → Grows b.write_offset
      → Agrees (parse_loop handle fuel b s) (frames_from fuel (content b) s)
  unfolding parse_loop frames_from
  parse_loop-Agrees zero b s v g = (refl, refl, refl, v)
  parse_loop-Agrees (suc fuel) b s v g =
      let same : read_pdu (content b) (length (content b)) ≡ read_pdu b.buffer b.write_offset =
        ap (read_pdu (content b)) (length-content b v)
        ∙ read_pdu_cong (content b) b.buffer b.write_offset
            (take-take_le b.write_offset b.write_offset b.buffer (omega arith)) in
      elim (read_pdu-Verdict b.buffer b.write_offset) [
        | waits h r ↦ rw (same, r, parse_loop, frames_from) (refl, refl, refl, v)
        | fails h z r ↦ rw (same, r, parse_loop, frames_from) (refl, refl, refl, v)
        | reads h z l r ↦
            let p = message_of b.buffer (read_uint32 b.buffer) in
            let rd : Reads b (get_length p) (SimpleBuffer.read b (get_length p)) =
              read-Reads b (get_length p) v in
            elim (Option-cases (handle p s).1) [
              | inr (e, thrown) ↦
                  rw (same, r, thrown, parse_loop, frames_from) (refl, refl, refl, v)
              | inl quiet ↦
                  rw (same, r, quiet, ← rd.left, parse_loop, frames_from)
                    (parse_loop-Agrees fuel _ (handle p s).0 rd.valid (omega (arith, rd.offset)))
            ]
      ]

  -- A message at the front of the bytes, and what it takes off them.
  pub record Front (xs : List ℕ) (p : ImPdu) : Type 0 where
    pub reading : read_pdu xs (length xs) ≡ ok (some p)
    pub some_bytes : 0 < get_length p
    pub within : get_length p ≤ length xs

  pub front :
      (xs : List ℕ)
      → Grows (length xs)
      → 16 ≤ length xs
      → 0 < read_uint32 xs
      → read_uint32 xs ≤ length xs
      → read_pdu xs (length xs) ≡ ok (some (message_of xs (read_uint32 xs)))
      → Front xs (message_of xs (read_uint32 xs))
  front xs g h z l r =
      let n = (message_of_lem xs (read_uint32 xs) l (omega arith)).2 in
      record { reading = r; some_bytes = omega (arith, n); within = omega (arith, n) }

  -- The fuel does not matter if there is more of it than bytes.
  pub frames_from_fuel :
      (f g : ℕ) (xs : List ℕ) (s : S)
      → Grows (length xs)
      → length xs < f
      → length xs < g
      → frames_from f xs s ≡ frames_from g xs s
  unfolding frames_from
  frames_from_fuel zero g xs s w hf hg = absurd (omega arith)
  frames_from_fuel (suc f) zero xs s w hf hg = absurd (omega arith)
  frames_from_fuel (suc f) (suc g) xs s w hf hg = elim (read_pdu-Verdict xs (length xs)) [
    | waits h r ↦ rw (r, frames_from)
    | fails h z r ↦ rw (r, frames_from)
    | reads h z l r ↦
        let p = message_of xs (read_uint32 xs) in
        let q : Front xs p = front xs w h z l r in
        let d = length-drop (get_length p) xs in
        elim (Option-cases (handle p s).1) [
          | inr (e, thrown) ↦ rw (r, thrown, frames_from)
          | inl quiet ↦
              rw (r, quiet, frames_from)
                (frames_from_fuel f g (drop (get_length p) xs) (handle p s).0 (omega (arith, d))
                  (omega (arith, d, q)) (omega (arith, d, q)))
        ]
  ]

  pub frames-step :
      (xs : List ℕ) (p : ImPdu) (s : S)
      → Grows (length xs)
      → Front xs p
      → (handle p s).1 ≡ none
      → frames xs s ≡ frames (drop (get_length p) xs) (handle p s).0
  unfolding frames frames_from
  frames-step xs p s w q quiet =
      let d = length-drop (get_length p) xs in
      rw (q.reading, quiet, frames_from)
        (frames_from_fuel (length xs) (suc (length (drop (get_length p) xs)))
          (drop (get_length p) xs) (handle p s).0 (omega (arith, d)) (omega (arith, d, q))
          (omega arith))
