-- ===== src/Net/Connector.antt =====
-- The class Connector of xx_chat_server/src/net/connector.h and connector.cpp, and Acceptor of
-- acceptor.h and acceptor.cpp.
-- A function returns the object it leaves, `none` at a failed assert or a null pointer. What the kernel
-- answers is an argument. What is closed and handed on is recorded in `calls`, the newest first. All
-- runs in the thread of the loop. `reStart` has an empty body, and nothing calls `resetChannel`.
use xx_chat.Base.{
  ℕ, ◌≡◌, ap, Bool, true, false, not, ◌||◌, Option, none, some, List, [], ◌∷◌, ◌==◌, if◌then◌else◌,
}
use xx_chat.Base.Options.{◌>>=◌, ◌>>◌, assert, found}
use xx_chat.Net.Channel.{Channel, new_channel, enable_reading, enable_writing, disable_all, remove}

pub data States : Type 0 where
  disconnected connecting connected : States

abbrev pub code : States → ℕ
code disconnected = 0
code connecting = 1
code connected = 2

pub data ConnectorCall : Type 0 where
  closes : ℕ → ConnectorCall
  new_connection : ℕ → ConnectorCall

pub record Connector : Type 0 where
  pub connect_ : Bool
  pub state : States
  pub channel : Option Channel
  pub calls : List ConnectorCall

unfoldable pub new_connector : Connector
new_connector = record { connect_ = false; state = disconnected; channel = none; calls = [] }

abbrev pub is : Connector → States → Bool
is c s = code c.state == code s

abbrev pub note : Connector → ConnectorCall → Connector
note c k = record c { calls = k ∷ c.calls }

-- The assert of the destructor.
unfoldable pub destroy : Connector → Option Connector
destroy c = found c.channel (some c) (λ ch. none)

unfoldable pub retry : Connector → ℕ → Connector
retry c sockfd = record (note c (closes sockfd)) { state = disconnected }

-- The descriptor, and the connector. Its channel is switched off and stays.
unfoldable pub remove_and_reset_channel : Connector → Option (ℕ × Connector)
unfolding remove
remove_and_reset_channel c =
    found c.channel none
      (λ ch. remove (disable_all ch) >>= λ ch'. some (ch'.fd, record c { channel = some ch' }))

unfoldable pub begin_connecting : Connector → ℕ → Option Connector
unfolding new_channel
begin_connecting c sockfd =
    found c.channel
      (some (record c { state = connecting; channel = some (enable_writing (new_channel sockfd)) }))
      (λ ch. none)

-- `flag`: 0, or the errno of connect; EINTR is 4, EAGAIN 11 and EINPROGRESS 115.
unfoldable pub connect : Connector → (sockfd flag : ℕ) → Option Connector
unfolding begin_connecting retry
connect c sockfd flag =
    if (flag == 0) || (flag == 115) || (flag == 4)
    then begin_connecting c sockfd
    else if flag == 11
    then some (retry c sockfd)
    else some (note c (closes sockfd))

unfoldable pub start_in_loop : Connector → (sockfd flag : ℕ) → Option Connector
unfolding connect
start_in_loop c sockfd flag = do
  assert (is c disconnected)
  if c.connect_ then connect c sockfd flag else some c

unfoldable pub start : Connector → (sockfd flag : ℕ) → Option Connector
unfolding start_in_loop
start c sockfd flag = start_in_loop (record c { connect_ = true }) sockfd flag

unfoldable pub stop_in_loop : Connector → Option Connector
unfolding remove_and_reset_channel
stop_in_loop c =
    if is c connecting
    then (remove_and_reset_channel (record c { state = disconnected }) >>= λ (fd, c'). some c')
    else some c

unfoldable pub stop : Connector → Option Connector
unfolding stop_in_loop
stop c = stop_in_loop (record c { connect_ = false })

-- `err`: SO_ERROR; `self_connect`: whether both ends are the same.
unfoldable pub handle_write : Connector → ℕ → Bool → Option Connector
unfolding remove_and_reset_channel retry
handle_write c err self_connect =
    if is c connecting
    then (remove_and_reset_channel c >>= λ (sockfd, c'). some (
        if not (err == 0) || self_connect
        then retry c' sockfd
        else if c'.connect_
        then note (record c' { state = connected }) (new_connection sockfd)
        else note (record c' { state = connected }) (closes sockfd)))
    else (assert (is c disconnected) >>= λ u. some c)

unfoldable pub handle_error : Connector → Option Connector
unfolding remove_and_reset_channel retry
handle_error c =
    if is c connecting
    then (remove_and_reset_channel c >>= λ (sockfd, c'). some (retry c' sockfd))
    else some c

-- A connector whose attempt has failed cannot be used again, nor destroyed: the next start fails the
-- assert that there is no channel, and so does the destructor.
pub handle_write_spent :
    (c : Connector) (ch : Channel) (err fd : ℕ) (self_connect : Bool)
    → c.state ≡ connecting
    → c.channel ≡ some ch
    → (err == 0) ≡ false
    → ((handle_write c err self_connect >>= λ c'. start c' fd 0) ≡ none)
      × ((handle_write c err self_connect >>= destroy) ≡ none)
unfolding handle_write remove_and_reset_channel remove retry start start_in_loop connect
    begin_connecting destroy
handle_write_spent c ch err fd self_connect e k f =
    let up : is c connecting ≡ true = ap (λ s. code s == 1) e in (rw (up, k, f), rw (up, k, f))

-- Acceptor.
pub record Acceptor : Type 0 where
  pub accept_channel : Channel
  pub listening : Bool
  pub has_callback : Bool
  pub calls : List ConnectorCall

unfoldable pub listen : Acceptor → Acceptor
listen a = record a { listening = true; accept_channel = enable_reading a.accept_channel }

-- `connfd`: what accept returns, `none` for a negative number.
unfoldable pub accept : Acceptor → Option ℕ → Acceptor
accept a connfd =
    found connfd a (λ fd. record a {
      calls = (if a.has_callback then new_connection fd else closes fd) ∷ a.calls;
    })

unfoldable pub destroy_acceptor : Acceptor → Option Channel
unfolding remove
destroy_acceptor a = remove (disable_all a.accept_channel)
