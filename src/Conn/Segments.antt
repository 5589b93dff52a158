-- ===== src/Conn/Segments.antt =====
-- More bytes behind a stream do not change the messages that are complete.
use xx_chat.Base.{
  ℕ, zero, suc, ◌≤◌, ◌<◌, ◌≡◌, refl, ap, ◌∙◌, inl, inr, Option, some, none, List, ◌++◌, length,
  drop, arith, length-append, length-drop, drop-append_le, Option-cases,
}
use xx_chat.Pdu.Words.{read_uint32}
use xx_chat.Pdu.Exception.{PduException, ok}
use xx_chat.Pdu.ImPdu.{ImPdu, get_length, read_pdu}
use xx_chat.Pdu.ImPdu.Read.{message_of}
use xx_chat.Pdu.ImPdu.Prefix.{
  waits, fails, reads, read_pdu-Verdict, read_pdu-append, read_pdu-append_zero,
}
use xx_chat.Conn.{Handler}
use xx_chat.Conn.Input.{Grows}
use xx_chat.Conn.Framing.{Front, front, frames, frames_from, frames-step}

module _ {S : Type 0} (handle : Handler S) where
  -- How the frames of `xs` bear on those of a longer stream.
  pub record Cut (xs : List ℕ) (s : S) (r : S × List ℕ × Option PduException) : Type 0 where
    pub shorter : length r.1 ≤ length xs
    pub settled : r.2 ≡ none → frames handle r.1 r.0 ≡ (r.0, r.1, none)
    pub quiet :
        r.2 ≡ none
        → (ys : List ℕ) → Grows (length (xs ++ ys))
        → frames handle (xs ++ ys) s ≡ frames handle (r.1 ++ ys) r.0
    pub thrown :
        (e : PduException)
        → r.2 ≡ some e
        → (ys : List ℕ) → Grows (length (xs ++ ys))
        → ((frames handle (xs ++ ys) s).0 ≡ r.0) × ((frames handle (xs ++ ys) s).2 ≡ some e)

  longer :
      (xs ys : List ℕ) (p : ImPdu) (s : S)
      → Front handle xs p
      → read_pdu (xs ++ ys) (length (xs ++ ys)) ≡ ok (some p)
      → Grows (length (xs ++ ys))
      → (handle p s).1 ≡ none
      → frames handle (xs ++ ys) s ≡ frames handle (drop (get_length p) xs ++ ys) (handle p s).0
  longer xs ys p s q r g calm =
      frames-step handle (xs ++ ys) p s g
        (record {
          reading = r;
          some_bytes = q.some_bytes;
          within = omega (arith, q.within, length-append xs ys);
        })
        calm
      ∙ ap (λ zs. frames handle zs (handle p s).0) (drop-append_le (get_length p) xs ys q.within)

  shorter_Grows :
      (n : ℕ) (xs ys : List ℕ) → Grows (length (xs ++ ys)) → Grows (length (drop n xs ++ ys))
  shorter_Grows n xs ys g =
      omega (arith, length-append xs ys, length-append (drop n xs) ys, length-drop n xs)

  pub frames-Cut :
      (fuel : ℕ) (xs : List ℕ) (s : S)
      → Grows (length xs)
      → length xs < fuel
      → Cut xs s (frames_from handle fuel xs s)
  unfolding frames_from frames
  frames-Cut zero xs s w h = absurd (omega arith)
  frames-Cut (suc fuel) xs s w h = elim (read_pdu-Verdict xs (length xs)) [
    | waits _ r ↦
        rw (r, frames_from)
          (record {
            shorter = omega arith;
            settled = λ _. rw (r, frames_from);
            quiet = λ _ ys _. refl;
            thrown = λ e h. cc;
          })
    | fails room z r ↦
        rw (r, frames_from)
          (record {
            shorter = omega arith;
            settled = λ h. cc;
            quiet = λ h. cc;
            thrown =
                λ e h ys _. rw (read_pdu-append_zero xs ys room z, frames, frames_from) (refl, h);
          })
    | reads room z l r ↦
        let p = message_of xs (read_uint32 xs) in
        let n = get_length p in
        let q : Front handle xs p = front handle xs w room z l r in
        elim (Option-cases (handle p s).1) [
          | inr (e', loud) ↦
              rw (r, loud, frames_from)
                (record {
                  shorter = omega arith;
                  settled = λ h. cc;
                  quiet = λ h. cc;
                  thrown = λ e h ys _.
                      rw (read_pdu-append xs ys room z l, loud, frames, frames_from) (refl, h);
                })
          | inl calm ↦
              let d = length-drop n xs in
              let ih : Cut (drop n xs) (handle p s).0
                  (frames_from handle fuel (drop n xs) (handle p s).0) =
                frames-Cut fuel (drop n xs) (handle p s).0 (omega (arith, d))
                  (omega (arith, d, q)) in
              let on = λ (ys : List ℕ) (g : Grows (length (xs ++ ys))).
                longer xs ys p s q (read_pdu-append xs ys room z l) g calm in
              let g' = λ (ys : List ℕ) (g : Grows (length (xs ++ ys))). shorter_Grows n xs ys g in
              rw (r, calm, frames_from)
                (record {
                  shorter = omega (arith, d, ih.shorter);
                  settled = ih.settled;
                  quiet = λ h ys g. on ys g ∙ ih.quiet h ys (g' ys g);
                  thrown = λ e h ys g. rw (on ys g) (ih.thrown e h ys (g' ys g));
                })
        ]
  ]
