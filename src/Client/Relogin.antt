-- ===== src/Client/Relogin.antt =====
-- ReLoginManager of the client, login/relogin_manager.cpp, with LoginOperation of
-- login/login_operation.cpp; and the answer of the login server, which
-- login/login_http_server_operation.cpp reads. The HTTP client and the JSON parser are parameters.
use xx_chat.Base.{
  ℕ, ◌%◌, ◌^◌, ◌≡◌, refl, ap, Bool, true, false, not, Option, none, some, List, [], ◌∷◌, ◌++◌, ◌==◌,
  ==_refl, if◌then◌else◌, Bool-cases, inl, inr,
}
use xx_chat.Base.Options.{found}
use xx_chat.Client.Events.{
  TimerEvent, same_text, has_name, register_timer_event, unregister_timer_event,
}
use xx_chat.Client.Login.{DataManager, TcpClientModule, Effect, do_login}

abbrev pub relogin_name : List ℕ
relogin_name =
    82 ∷ 101 ∷ 76 ∷ 111 ∷ 103 ∷ 105 ∷ 110 ∷ 77 ∷ 97 ∷ 110 ∷ 97 ∷ 103 ∷ 101 ∷ 114 ∷ 95 ∷ 68 ∷ 111
    ∷ 82 ∷ 101 ∷ 76 ∷ 111 ∷ 103 ∷ 105 ∷ 110 ∷ 95 ∷ 84 ∷ 105 ∷ 109 ∷ 101 ∷ 114 ∷ []

abbrev pub relogin_timer : TimerEvent
relogin_timer = record {
  timer_event_name = relogin_name;
  callback = 2;
  interval = 3000;
  next_tick = 0;
}

-- DoReLogin, on the timers of EventManager.
unfoldable pub do_relogin : List TimerEvent → List TimerEvent
unfolding register_timer_event
do_relogin ts = register_timer_event ts relogin_timer

-- The operation that ReLogin starts; `handle`: what netlib_connect returns.
unfoldable pub relogin : DataManager → TcpClientModule → ℕ → TcpClientModule × List Effect
unfolding do_login
relogin d m handle = do_login m d.msg_server_ip d.msg_server_port d.login_name d.login_passwd handle

-- The result of the login is not looked at.
unfoldable pub on_operation_callback : List TimerEvent → Bool → List TimerEvent
unfolding unregister_timer_event
on_operation_callback ts success = unregister_timer_event ts relogin_name

-- The answer of the login server: its code, and the address of a message server.
pub record LoginServerAnswer : Type 0 where
  pub code : ℕ
  pub ip : List ℕ
  pub port : ℕ

-- What LoginHttpServerOperation passes to its callback: nothing, or an address. `response` is the text
-- if the request succeeded, and `parse` throws on a text without these fields.
unfoldable pub process_operation :
    (List ℕ → Option LoginServerAnswer) → Option (List ℕ) → Option (List ℕ × ℕ)
process_operation parse response = found response none (λ text.
    found (parse text) none (λ a. if not (a.code == 0) then none else some (a.ip, a.port % 2 ^ 16)))

same_text_refl : (xs : List ℕ) → same_text xs xs ≡ true
same_text_refl [] = refl
same_text_refl (x ∷ xs) = rw (==_refl x) (same_text_refl xs)

-- A timer that is registered last is the first of its name, if there is no other.
unregister_last :
    (ts : List TimerEvent) (t : TimerEvent)
    → has_name t.timer_event_name ts ≡ false
    → unregister_timer_event (ts ++ t ∷ []) t.timer_event_name ≡ ts
unfolding unregister_timer_event
unregister_last [] t h = rw (same_text_refl t.timer_event_name)
unregister_last (u ∷ ts) t h = elim (Bool-cases (same_text u.timer_event_name t.timer_event_name)) [
  | inl same ↦ cc
  | inr other ↦ rw other (ap (◌∷◌ u) (unregister_last ts t (rw other at h)))
]

-- The first answer to a login, also a refusal, ends the attempts to log in again: the timers are those
-- from before DoReLogin.
pub relogin_once :
    (ts : List TimerEvent) (success : Bool)
    → has_name relogin_name ts ≡ false
    → on_operation_callback (do_relogin ts) success ≡ ts
unfolding on_operation_callback do_relogin
relogin_once ts success h = rw h (unregister_last ts relogin_timer h)
