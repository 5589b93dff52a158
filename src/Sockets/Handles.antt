-- ===== src/Sockets/Handles.antt =====
-- The functions of xx_chat_server/src/base/net_lib.cpp that take a handle.
use xx_chat.Base.{
  ℕ, ◌^◌, ◌≡◌, refl, ap, ◌∙◌, Bool, true, false, ◌&&◌, ◌||◌, Option, none, some, List, leb, ltb,
  ◌≢◌, if_cases, ◌==◌, ==_refl, ==_iff, if◌then◌else◌, lookup, erase, lookup-erase,
}
use xx_chat.Base.Options.{found}
use xx_chat.Sockets.{
  System, set_option, new_base_socket, asked, assign, object, make_shared, remove_base_socket,
  find_base_socket, Reply, netlib_ok, netlib_error, listen, connect, send, close,
}

unfoldable pub netlib_listen :
    System → List ℕ → ℕ → ℕ → (fd : ℕ) (bound listens : Reply) → System × ℕ
unfolding make_shared listen
netlib_listen sys ip port callback fd bound listens =
    let (sys1, a) = make_shared sys new_base_socket in
    listen sys1 a ip port callback fd bound listens

unfoldable pub netlib_connect : System → List ℕ → ℕ → ℕ → (fd : ℕ) (connects : Reply) → System × ℕ
unfolding make_shared connect
netlib_connect sys ip port callback fd connects =
    let (sys1, a) = make_shared sys new_base_socket in connect sys1 a ip port callback fd connects

unfoldable pub netlib_send : System → ℕ → List ℕ → Reply → System × ℕ
unfolding find_base_socket send
netlib_send sys handle buf reply =
    found (find_base_socket sys handle) (sys, netlib_error) (λ a. send sys a buf reply)

-- Recv hands the kernel's result on.
unfoldable pub netlib_recv : System → ℕ → Reply → System × ℕ
unfolding find_base_socket
netlib_recv sys handle reply =
    found (find_base_socket sys handle) (sys, netlib_error) (λ a. (sys, reply.result))

unfoldable pub netlib_close : System → ℕ → System × ℕ
unfolding find_base_socket close
netlib_close sys handle = found (find_base_socket sys handle) (sys, netlib_error) (λ a. close sys a)

-- What `optval` points to: nothing, a text or a number.
pub data Optval : Type 0 where
  null : Optval
  text : List ℕ → Optval
  value : ℕ → Optval

abbrev pub is_null : Optval → Bool
is_null null = true
is_null _ = false

-- The value that a setter reads.
abbrev pub given : Optval → ℕ
given (value n) = n
given _ = 0

-- The options by their numbers: the addresses and ports of both ends, and the sizes of the buffers,
-- which only the kernel keeps.
abbrev pub option_switch : System → ℕ → ℕ → Optval → System × Optval
option_switch sys a opt optval =
    let s = object sys a in
    if opt == 1
    then (sys, text s.remote_ip)
    else if opt == 2
    then (sys, value s.remote_port)
    else if opt == 3
    then (sys, text s.local_ip)
    else if opt == 4
    then (sys, value s.local_port)
    else if (opt == 5) || (opt == 6)
    then (asked sys (set_option s.socket opt (given optval)), optval)
    else (sys, optval)

unfoldable pub netlib_option : System → ℕ → ℕ → Optval → System × ℕ × Optval
unfolding find_base_socket object
netlib_option sys handle opt optval =
    found (find_base_socket sys handle) (sys, netlib_error, optval)
      (λ a.
        if leb 1 opt && ltb opt (2 ^ 31) && is_null optval
        then (sys, netlib_error, optval)
        else let (sys', v) = option_switch sys a opt optval in (sys', netlib_ok, v))

unfoldable pub netlib_register_message_callback : System → ℕ → ℕ → System × ℕ
unfolding find_base_socket
netlib_register_message_callback sys handle callback =
    found (find_base_socket sys handle) (sys, netlib_error)
      (λ a. (assign sys a (λ s. record s { message_callback = some callback }), netlib_ok))

-- No call on the handle does anything, and each says so.
pub record IsClosed (sys : System) (handle : ℕ) : Type 0 where
  pub sends :
      (buf : List ℕ) (reply : Reply) → netlib_send sys handle buf reply ≡ (sys, netlib_error)
  pub receives : (reply : Reply) → netlib_recv sys handle reply ≡ (sys, netlib_error)
  pub closes : netlib_close sys handle ≡ (sys, netlib_error)
  pub sets : (opt : ℕ) (v : Optval) → netlib_option sys handle opt v ≡ (sys, netlib_error, v)
  pub registers :
      (callback : ℕ) → netlib_register_message_callback sys handle callback ≡ (sys, netlib_error)

missing-IsClosed :
    (sys : System) (handle : ℕ) → find_base_socket sys handle ≡ none → IsClosed sys handle
unfolding netlib_send netlib_recv netlib_close netlib_option netlib_register_message_callback
missing-IsClosed sys handle h = record {
  sends = λ buf reply. rw h;
  receives = λ reply. rw h;
  closes = rw h;
  sets = λ opt v. rw h;
  registers = λ callback. rw h;
}

-- The table knows each object by its descriptor.
abbrev pub IsKept : System → Type 0
IsKept sys = (fd a : ℕ) → lookup fd sys.socket_map ≡ some a → (object sys a).socket ≡ fd

-- Where the table knows each object by its descriptor, netlib_close succeeds on a handle of the table.
-- In the state that it leaves, every call with the handle, a second netlib_close too, returns
-- NETLIB_ERROR and changes nothing, and any other handle has the socket that it had.
pub netlib_close_lem :
    (sys : System) (handle a other : ℕ)
    → IsKept sys
    → find_base_socket sys handle ≡ some a
    → handle ≢ other
    → let (sys', r) = netlib_close sys handle in
      (r ≡ 0) × IsClosed sys' handle × (find_base_socket sys' other ≡ find_base_socket sys other)
unfolding netlib_close close find_base_socket remove_base_socket object
netlib_close_lem sys handle a other k h ne =
    let fd : (object sys a).socket ≡ handle = k handle a h in
    let erased : (j : ℕ)
        → lookup j (erase (object sys a).socket sys.socket_map)
          ≡ (if handle == j then none else lookup j sys.socket_map) =
      λ j.
        lookup-erase (object sys a).socket j sys.socket_map
        ∙ ap (λ i. if i == j then none else lookup j sys.socket_map) fd in
    let (sys', r) = close sys a in
    rw h (
      refl,
      missing-IsClosed sys' handle (
          erased handle
          ∙ ap (λ b. if b then none else lookup handle sys.socket_map) (==_refl handle)),
      erased other
          ∙ if_cases (λ (o : Option ℕ). o ≡ lookup other sys.socket_map) (handle == other)
              (λ e. absurd (ne ((==_iff handle other).0 e))) (λ _. refl),
    )
