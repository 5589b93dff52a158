-- ===== src/Conn/Callback.antt =====
-- ImConnCallback and FindImConn of xx_chat_server/src/base/im_conn.cpp: what an event of a socket leads to.
use xx_chat.Base.{ℕ, Option, none, List, lookup}
use xx_chat.Base.Options.{found}
use xx_chat.Sockets.{Message, msg_connect, msg_confirm, msg_read, msg_write, msg_close}

-- The methods of a connection of type `C`, on a state.
pub record Methods (C S : Type 0) : Type 0 where
  pub on_confirm : C → S → S
  pub on_read : C → S → S
  pub on_write : C → S → S
  pub on_close : C → S → S

-- A map that is a null pointer has no connection.
unfoldable pub find_im_conn : {C : Type 0} → Option (List (ℕ × C)) → ℕ → Option C
find_im_conn imconn_map handle = found imconn_map none (lookup handle)

unfoldable pub im_conn_callback :
    {C S : Type 0} → Methods C S → Message → ℕ → Option (List (ℕ × C)) → S → S
unfolding find_im_conn
im_conn_callback {C} {S} m msg handle callback_data s =
    found (find_im_conn callback_data handle) s (dispatch msg)
  where
    dispatch : Message → C → S
    dispatch msg_confirm c = m.on_confirm c s
    dispatch msg_read c = m.on_read c s
    dispatch msg_write c = m.on_write c s
    dispatch msg_close c = m.on_close c s
    dispatch msg_connect c = s
