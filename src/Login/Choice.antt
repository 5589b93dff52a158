-- ===== src/Login/Choice.antt =====
-- The message server that HandleMsgServRequest gives a client.
use mathlib.Core.List.{Memᴰ}
use xx_chat.Base.{
  ℕ, ◌^◌, ◌≤◌, ◌<◌, refl, ◌&&◌, ◌⊎◌, inl, inr, Option, none, some, List, [], ◌∷◌, ltb, Bool-cases,
  arith, Each,
}
use xx_chat.Base.Options.{found}
use xx_chat.Login.{MsgServInfo, Message, choose, answer}

-- No larger than the number of connections of every server that is not full.
abbrev pub IsLeast : ℕ → List (ℕ × MsgServInfo) → Type 0
IsLeast n m = Each (λ i. (i.max_conn_cnt ≤ i.cur_conn_cnt) ⊎ (n ≤ i.cur_conn_cnt)) m

abbrev pub AllFull : List (ℕ × MsgServInfo) → Type 0
AllFull m = Each (λ i. i.max_conn_cnt ≤ i.cur_conn_cnt) m

-- The counts are uint32_t values.
abbrev pub AllSmall : List (ℕ × MsgServInfo) → Type 0
AllSmall m = Each (λ i. i.max_conn_cnt < 2 ^ 32) m

-- A server of the table with room and the least number of connections.
pub record Chosen (m : List (ℕ × MsgServInfo)) (i : MsgServInfo) : Type 0 where
  pub handle : ℕ
  pub member : Memᴰ (handle, i) m
  pub has_room : i.cur_conn_cnt < i.max_conn_cnt
  pub least : IsLeast i.cur_conn_cnt m

-- What the loop ends with: the best server so far, or a better one of the rest.
data Outcome (m : List (ℕ × MsgServInfo)) (best : Option MsgServInfo) (n : ℕ)
    : Option MsgServInfo → Type 0 where
  kept : IsLeast n m → Outcome m best n best
  better : (i : MsgServInfo) → Chosen m i → i.cur_conn_cnt < n → Outcome m best n (some i)

taken :
    (k : ℕ) (i : MsgServInfo) (m : List (ℕ × MsgServInfo)) (best : Option MsgServInfo) (n : ℕ)
    {r : Option MsgServInfo}
    → (i.cur_conn_cnt < i.max_conn_cnt) × (i.cur_conn_cnt < n)
    → Outcome m (some i) i.cur_conn_cnt r
    → Outcome ((k, i) ∷ m) best n r
taken k i m best n h (kept l) =
    better i
      (record {
        handle = k;
        member = Memᴰ.head refl;
        has_room = h.0;
        least = (inr (omega arith), l);
      })
      h.1
taken k i m best n h (better j c lt) =
    better j
      (record {
        handle = c.handle;
        member = Memᴰ.tail c.member;
        has_room = c.has_room;
        least = (inr (omega (arith, lt)), c.least);
      })
      (omega (arith, lt, h.1))

passed :
    (k : ℕ) (i : MsgServInfo) (m : List (ℕ × MsgServInfo)) (best : Option MsgServInfo) (n : ℕ)
    {r : Option MsgServInfo}
    → (i.max_conn_cnt ≤ i.cur_conn_cnt) ⊎ (n ≤ i.cur_conn_cnt)
    → Outcome m best n r
    → Outcome ((k, i) ∷ m) best n r
passed k i m best n h (kept l) = kept (h, l)
passed k i m best n h (better j c lt) =
    better j
      (record {
        handle = c.handle;
        member = Memᴰ.tail c.member;
        has_room = c.has_room;
        least = (elim h [ inl full ↦ inl full | inr le ↦ inr (omega (arith, lt, le)) ], c.least);
      })
      lt

choose_lem :
    (m : List (ℕ × MsgServInfo)) (best : Option MsgServInfo) (n : ℕ)
    → Outcome m best n (choose m best n)
unfolding choose
choose_lem [] best n = kept tt
choose_lem ((k, i) ∷ m) best n =
    elim (Bool-cases (ltb i.cur_conn_cnt i.max_conn_cnt && ltb i.cur_conn_cnt n)) [
      | inl fits ↦
          rw fits (taken k i m best n (ground arith) (choose_lem m (some i) i.cur_conn_cnt))
      | inr fails ↦ rw fails (passed k i m best n (ground arith) (choose_lem m best n))
    ]

-- No server has as many as 2^32 - 1 connections and room.
full_lem : (m : List (ℕ × MsgServInfo)) → AllSmall m → IsLeast 4294967295 m → AllFull m
full_lem [] h l = tt
full_lem ((k, i) ∷ m) (h, hs) (inl full, ls) = (full, full_lem m hs ls)
full_lem ((k, i) ∷ m) (h, hs) (inr le, ls) = (omega (arith, h, le), full_lem m hs ls)

-- What HandleMsgServRequest may answer, by the table of message servers.
pub data Answers : List (ℕ × MsgServInfo) → ℕ → Message → Type 0 where
  no_server : (seq_num : ℕ) → Answers [] seq_num (Message.refused 1 seq_num)
  all_full :
      (e : ℕ × MsgServInfo) (m : List (ℕ × MsgServInfo)) (seq_num : ℕ)
      → AllFull (e ∷ m)
      → Answers (e ∷ m) seq_num (Message.refused 2 seq_num)
  least_loaded :
      (m : List (ℕ × MsgServInfo)) (seq_num : ℕ) (i : MsgServInfo)
      → Chosen m i
      → Answers m seq_num (Message.served i.ip_addr i.port seq_num)

answer_chosen :
    (e : ℕ × MsgServInfo) (m : List (ℕ × MsgServInfo)) (seq_num : ℕ) (r : Option MsgServInfo)
    → AllSmall (e ∷ m)
    → Outcome (e ∷ m) none 4294967295 r
    → Answers
        (e ∷ m)
        seq_num
        (found r (Message.refused 2 seq_num) (λ i. Message.served i.ip_addr i.port seq_num))
answer_chosen e m seq_num r h (kept l) = all_full e m seq_num (full_lem (e ∷ m) h l)
answer_chosen e m seq_num r h (better i c lt) = least_loaded (e ∷ m) seq_num i c

-- Where the maxima are uint32_t values, HandleMsgServRequest answers, with the sequence number of the
-- request: without any message server
-- the refusal 1; if all of them are full the refusal 2; and else the address of one in the table that
-- has room and no more connections than any other with room.
pub answer-Answers :
    (m : List (ℕ × MsgServInfo)) (seq_num : ℕ) → AllSmall m → Answers m seq_num (answer m seq_num)
unfolding answer
answer-Answers [] seq_num h = no_server seq_num
answer-Answers (e ∷ m) seq_num h =
    answer_chosen e m seq_num (choose (e ∷ m) none 4294967295) h
      (choose_lem (e ∷ m) none 4294967295)
