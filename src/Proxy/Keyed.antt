-- ===== src/Proxy/Keyed.antt =====
-- The table of connections by uuid of the database proxy, in the states that the program reaches.
use xx_chat.Base.{
  ℕ, ltb, ◌+◌, ◌%◌, ◌^◌, ◌≡◌, refl, sym, ap, ◌∙◌, subst, Bool, false, Option, none, some, List, [],
  ◌∷◌, ◌==◌, if◌then◌else◌, arith, inl, inr, lookup, insert, update, erase, lookup-erase,
  lookup-place, insert-missing, lookup-update-found, Option-cases, if_cases, ==_refl,
}
use mathlib.Core.Option.{some-injective}
use xx_chat.Base.Options.{found, found_cases}
use xx_chat.Proxy.Responses.{
  ProxyConn, Effect, State, new_state, new_proxy_conn, set_uuid, on_connect, proxy_serv_callback,
  close, get_proxy_conn_by_uuid, next_uuid, add_response_pdu, note_send, send_response,
  send_responses, send_response_pdu_list, on_timer,
}

-- What is left after erasing was there before.
kept_lookup :
    {V : Type 0} (u w : ℕ) (d : V) (m : List (ℕ × V))
    → lookup u (erase w m) ≡ some d
    → lookup u m ≡ some d
kept_lookup u w d m h = ground (arith, lookup-erase w u m, h)

-- A connection is known by its own uuid, and has a handle.
pub record IsOwn (u : ℕ) (c : ProxyConn) : Type 0 where
  pub own : c.uuid ≡ u
  pub valid : (c.handle == 4294967295) ≡ false

-- Changes of a connection in the table.
update-IsOwn :
    (k u : ℕ) (f : ProxyConn → ProxyConn) (m : List (ℕ × ProxyConn)) (c : ProxyConn)
    → ((v : ℕ) (d : ProxyConn) → lookup v m ≡ some d → (k == v) ≡ false → IsOwn v d)
    → ((d : ProxyConn) → lookup k m ≡ some d → IsOwn k (f d))
    → lookup u (update k f m) ≡ some c
    → IsOwn u c
update-IsOwn k u f m c others here h =
    let h' = sym (lookup-update-found k u f m) ∙ h in
    elim (Option-cases (lookup u m)) [
      | inl e ↦ absurd (ground (arith, e, h'))
      | inr (d, e) ↦
          let same : (if k == u then f d else d) ≡ c =
            some-injective _ c
              (sym (ap (λ o. found o none (λ v. some (if k == u then f v else v))) e) ∙ h') in
          subst (IsOwn u) same (
            if_cases (IsOwn u) (k == u)
              (λ at_k.
                let eq : k ≡ u = ground (arith, at_k) in
                subst (λ v. IsOwn v (f d)) eq (here d (ap (λ v. lookup v m) eq ∙ e)))
              (λ off. others u d e off))
    ]

module _ {P : Type 0} where
  -- Every connection in the table is in it under its own uuid, and has a handle.
  pub record IsKeyed (s : State P) : Type 0 where
    pub keyed : (u : ℕ) (c : ProxyConn) → lookup u s.uuid_conn_map ≡ some c → IsOwn u c

  close-IsKeyed : (c : ProxyConn) (s : State P) → IsKeyed s → IsKeyed (close c s).0
  unfolding close
  close-IsKeyed c s k =
      if_cases (λ (r : State P × List (Effect P)). IsKeyed r.0) (c.handle == 4294967295) (λ e. k)
        (λ e. record { keyed = λ u d h. k.keyed u d (kept_lookup u c.uuid d s.uuid_conn_map h) })

  note_send-IsKeyed :
      (now v : ℕ) (c : ProxyConn) (s : State P) → IsKeyed s → IsKeyed (note_send now v c s)
  unfolding note_send
  note_send-IsKeyed now v c s k = record {
    keyed = λ u d.
        update-IsOwn v u (λ x. record x { last_send_tick = now }) s.uuid_conn_map d
          (λ w x at_w off. k.keyed w x at_w)
          (λ x at_v. record { own = (k.keyed v x at_v).own; valid = (k.keyed v x at_v).valid });
  }

  pub send_response-IsKeyed :
      (now v : ℕ) (o : Option P) (s : State P) → IsKeyed s → IsKeyed (send_response now v o s).0
  unfolding send_response
  send_response-IsKeyed now v none s k =
      found_cases (λ (r : State P × List (Effect P)). IsKeyed r.0) (get_proxy_conn_by_uuid v s)
        (λ e. k) (λ c e. close-IsKeyed c s k)
  send_response-IsKeyed now v (some p) s k =
      found_cases (λ (r : State P × List (Effect P)). IsKeyed r.0) (get_proxy_conn_by_uuid v s)
        (λ e. k) (λ c e. note_send-IsKeyed now v c s k)

  send_responses-IsKeyed :
      (now : ℕ) (rs : List (ℕ × Option P)) (s : State P)
      → IsKeyed s
      → IsKeyed (send_responses now rs s).0
  unfolding send_responses
  send_responses-IsKeyed now [] s k = record { keyed = k.keyed }
  send_responses-IsKeyed now ((v, o) ∷ rs) s k =
      send_responses-IsKeyed now rs (send_response now v o s).0 (send_response-IsKeyed now v o s k)

  -- Another state of a connection of the table.
  written-IsKeyed :
      (c c' : ProxyConn) (proxy_conn_map : List (ℕ × ProxyConn)) (s : State P)
      → IsKeyed s
      → lookup c.uuid s.uuid_conn_map ≡ some c
      → c'.uuid ≡ c.uuid
      → c'.handle ≡ c.handle
      → IsKeyed (record s {
        proxy_conn_map = proxy_conn_map;
        uuid_conn_map = update c.uuid (λ d. if d.handle == c.handle then c' else d) s.uuid_conn_map;
      })
  written-IsKeyed c c' proxy_conn_map s k e same_uuid same_handle = record {
    keyed = λ u d.
        update-IsOwn c.uuid u (λ x. if x.handle == c.handle then c' else x) s.uuid_conn_map d
          (λ v x at_v off. k.keyed v x at_v)
          (λ x at_k.
            if_cases (IsOwn c.uuid) (x.handle == c.handle)
              (λ _. record {
                own = same_uuid;
                valid = ap (λ h. h == 4294967295) same_handle ∙ (k.keyed c.uuid c e).valid;
              })
              (λ _. k.keyed c.uuid x at_k));
  }

  on_timer-IsKeyed :
      (c : ProxyConn) (beat : P) (now : ℕ) (s : State P)
      → IsKeyed s
      → lookup c.uuid s.uuid_conn_map ≡ some c
      → IsKeyed (on_timer c beat now s).0
  unfolding on_timer
  on_timer-IsKeyed c beat now s k e =
      let beats = ltb ((c.last_send_tick + 5000) % 2 ^ 64) now in
      let c' : ProxyConn = if beats then record c { last_send_tick = now } else c in
      let kept =
        written-IsKeyed c c' (update c.handle (λ d. c') s.proxy_conn_map) s k e
          (if_cases (λ (d : ProxyConn). d.uuid ≡ c.uuid) beats (λ _. refl) (λ _. refl))
          (if_cases (λ (d : ProxyConn). d.handle ≡ c.handle) beats (λ _. refl) (λ _. refl)) in
      if_cases (λ (r : State P × List (Effect P)). IsKeyed r.0)
        (ltb ((c.last_recv_tick + 30000) % 2 ^ 64) now) (λ _. close-IsKeyed c' _ kept) (λ _. kept)

  proxy_serv_callback-IsKeyed :
      (handle now : ℕ) (s : State P)
      → IsKeyed s
      → (handle == 4294967295) ≡ false
      → lookup (next_uuid s.uuid_alloctor) s.uuid_conn_map ≡ none
      → IsKeyed (proxy_serv_callback handle now s).1
  unfolding proxy_serv_callback set_uuid on_connect
  proxy_serv_callback-IsKeyed handle now s k valid free =
      let uuid = next_uuid s.uuid_alloctor in
      let c0 : ProxyConn = record (new_proxy_conn now) { uuid = uuid } in
      let c' : ProxyConn = record c0 { handle = handle } in
      let f = λ (d : ProxyConn). if d.handle == c0.handle then c' else d in
      let m1 = insert uuid c0 s.uuid_conn_map in
      let at_key : (j : ℕ)
          → lookup j m1 ≡ (if uuid == j then some c0 else lookup j s.uuid_conn_map) =
        λ j.
          ap (lookup j) (insert-missing uuid c0 s.uuid_conn_map free)
          ∙ lookup-place uuid j c0 s.uuid_conn_map free in
      record {
        keyed = λ u d.
            update-IsOwn uuid u f m1 d
              (λ v x at_v off. k.keyed v x (
                sym (
                  at_key v ∙ ap (λ (b : Bool). if b then some c0 else lookup v s.uuid_conn_map) off)
                ∙ at_v))
              (λ x at_k.
                let same : c0 ≡ x = some-injective c0 x (
                  sym (
                    at_key uuid
                    ∙ ap (λ (b : Bool). if b then some c0 else lookup uuid s.uuid_conn_map)
                        (==_refl uuid))
                  ∙ at_k) in
                subst (λ y. IsOwn uuid (f y)) same (record { own = refl; valid = valid }));
      }

  -- The states that the program reaches.
  pub data Reached : State P → Type 0 where
    starts : Reached new_state
    accepts :
        (handle now : ℕ) (s : State P)
        → (handle == 4294967295) ≡ false
        → lookup (next_uuid s.uuid_alloctor) s.uuid_conn_map ≡ none
        → Reached s
        → Reached (proxy_serv_callback handle now s).1
    shuts :
        (u : ℕ) (c : ProxyConn) (s : State P)
        → lookup u s.uuid_conn_map ≡ some c
        → Reached s
        → Reached (close c s).0
    ticks :
        (c : ProxyConn) (beat : P) (now : ℕ) (s : State P)
        → lookup c.uuid s.uuid_conn_map ≡ some c
        → Reached s
        → Reached (on_timer c beat now s).0
    responds :
        (u : ℕ) (pdu : Option P) (s : State P) → Reached s → Reached (add_response_pdu u pdu s)
    answers : (now : ℕ) (s : State P) → Reached s → Reached (send_response_pdu_list now s).0

  pub Reached-IsKeyed : (s : State P) → Reached s → IsKeyed s
  unfolding add_response_pdu send_response_pdu_list lookup
  Reached-IsKeyed s (starts) = record { keyed = λ u c h. absurd cc }
  Reached-IsKeyed s (accepts handle now s0 valid free r) =
      proxy_serv_callback-IsKeyed handle now s0 (Reached-IsKeyed s0 r) valid free
  Reached-IsKeyed s (shuts u c s0 e r) = close-IsKeyed c s0 (Reached-IsKeyed s0 r)
  Reached-IsKeyed s (ticks c beat now s0 e r) =
      on_timer-IsKeyed c beat now s0 (Reached-IsKeyed s0 r) e
  Reached-IsKeyed s (responds u pdu s0 r) = record { keyed = (Reached-IsKeyed s0 r).keyed }
  Reached-IsKeyed s (answers now s0 r) =
      send_responses-IsKeyed now s0.response_pdu_list s0 (Reached-IsKeyed s0 r)
