-- ===== src/Proxy/Requests.antt =====
-- ProxyConn::OnRead of xx_chat_server/src/db_proxy_server/proxy_conn.cpp, on the buffers of ImConn.
-- IsPduAvailable and ReadPdu on the length that it gives are ReadPdu on the whole buffer.
use xx_chat.Base.{ℕ, Bool, none, List, [], ◌++◌}
use xx_chat.Base.Options.{found}
use xx_chat.Pdu.ImPdu.{ImPdu}
use xx_chat.Conn.{ImConn, Handler}
use xx_chat.Conn
use xx_chat.Proxy.Responses.{ProxyConn, State, Effect, handle_pdu_buf, close}

-- HandlePduBuf in the loop of OnRead, after the tasks of the messages before.
abbrev pub handler : (ℕ → Bool) → ProxyConn → Handler (List (Effect ImPdu))
handler has_handler c pdu out =
    (out ++ handle_pdu_buf has_handler c pdu.header.command_id pdu, none)

unfoldable pub on_read :
    (ℕ → Bool)
    → ImConn
    → ProxyConn
    → ℕ
    → List (List ℕ)
    → State ImPdu
    → ImConn × State ImPdu × List (Effect ImPdu)
unfolding Conn.on_read handle_pdu_buf close
on_read has_handler buffers c now chunks s =
    let (buffers', out, thrown) = Conn.on_read (handler has_handler c) buffers now chunks [] in
    found thrown (buffers', s, out)
      (λ e.
        let (s', closing) = close (record c { last_recv_tick = buffers'.last_recv_tick }) s in
        (buffers', s', out ++ closing))
