-- ===== src/Conn/Tests.antt =====
-- Runs of ImConn, and its theorems at concrete values.
use xx_chat.Base.{ℕ, ◌+◌, ◌≡◌, refl, none, List, [], ◌∷◌, ◌++◌, arith}
use xx_chat.Pdu.SimpleBuffer
use xx_chat.Pdu.SimpleBuffer.{SimpleBuffer}
use xx_chat.Pdu.SimpleBuffer.Content.{content}
use xx_chat.Pdu.ImPdu.{ImPdu, get_length, read_pdu}
use xx_chat.Conn.{Answer, Handler, new_conn}
use xx_chat.Conn.Output.{IsQueued, new_conn-IsQueued}
use xx_chat.Conn.Order.{Call, sends, writable, run, run_order}
use xx_chat.Conn.Framing.{frames, frames_from}
use xx_chat.Conn.Reads.{Read, run_reads, Handles, run_reads-Handles}

abbrev calls : List Call
calls =
    sends 10 (1 ∷ 2 ∷ 3 ∷ []) (Answer.room 2 ∷ Answer.refuse ∷ [])
    ∷ sends 20 (4 ∷ []) (Answer.room 9 ∷ [])
    ∷ writable (Answer.room 1 ∷ Answer.room 5 ∷ [])
    ∷ []

run_order_example :
    let (c, wire) = run (new_conn 3 0) calls in
    (wire ++ content c.out_buf ≡ content (new_conn 3 0).out_buf ++ (1 ∷ 2 ∷ 3 ∷ 4 ∷ []))
    × IsQueued c
unfolding new_conn SimpleBuffer.empty
run_order_example = run_order (new_conn 3 0) calls (new_conn-IsQueued 3 0) (omega arith)

-- A handler that counts.
abbrev count : Handler ℕ
count p n = (n + 1, none)

-- A heartbeat, of 16 bytes, in two reads of one call and one of a second.
abbrev reads : List Read
reads =
    (5, (0 ∷ 0 ∷ 0 ∷ 16 ∷ 0 ∷ 1 ∷ []) ∷ (0 ∷ 0 ∷ 0 ∷ 7 ∷ []) ∷ [])
    ∷ (6, (7 ∷ 1 ∷ 0 ∷ 0 ∷ 0 ∷ 0 ∷ 0 ∷ []) ∷ [])
    ∷ []

run_reads-Handles_example :
    Handles count
      (content (new_conn 3 0).in_buf
        ++ (0 ∷ 0 ∷ 0 ∷ 16 ∷ 0 ∷ 1 ∷ 0 ∷ 0 ∷ 0 ∷ 7 ∷ 7 ∷ 1 ∷ 0 ∷ 0 ∷ 0 ∷ 0 ∷ 0 ∷ []))
      0
      (run_reads count (new_conn 3 0) reads 0)
unfolding new_conn SimpleBuffer.empty frames frames_from read_pdu xx_chat.Pdu.ImPdu.is_pdu_available
run_reads-Handles_example =
    run_reads-Handles count (new_conn 3 0) reads 0 (omega arith) refl (omega arith) (omega arith)
