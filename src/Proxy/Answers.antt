-- ===== src/Proxy/Answers.antt =====
-- What each connection of the database proxy gets from the queue of responses.
use xx_chat.Base.{
  ℕ, ◌≡◌, refl, ap, ap₂, ◌∙◌, subst, Bool, true, false, Option, none, some, List, [], ◌∷◌, ◌++◌,
  ◌==◌, if◌then◌else◌, arith, inl, inr, lookup, lookup-erase, lookup-update-found, Option-cases,
  Bool-cases, ==_refl,
}
use xx_chat.Base.Options.{found, found_cases}
use xx_chat.Proxy.Keyed.{IsKeyed, Reached, send_response-IsKeyed, Reached-IsKeyed}
use xx_chat.Proxy.Responses.{
  ProxyConn, Effect, State, close, get_proxy_conn_by_uuid, note_send, send_response, send_responses,
  send_response_pdu_list,
}

keep_append :
    {A : Type 0} (b : Bool) (x : A) (xs ys : List A) {zs : List A}
    → zs ≡ xs ++ ys
    → (if b then x ∷ zs else zs) ≡ (if b then x ∷ xs else xs) ++ ys
keep_append true x xs ys e = ap (λ l. x ∷ l) e
keep_append false x xs ys e = e

module _ {P : Type 0} where
  -- The effects on one connection.
  unfoldable pub on_uuid : ℕ → List (Effect P) → List (Effect P)
  on_uuid u [] = []
  on_uuid u (Effect.sends v p ∷ es) =
      let rest = on_uuid u es in if v == u then Effect.sends v p ∷ rest else rest
  on_uuid u (Effect.closes v ∷ es) =
      let rest = on_uuid u es in if v == u then Effect.closes v ∷ rest else rest
  on_uuid u (Effect.queues v i p ∷ es) =
      let rest = on_uuid u es in if v == u then Effect.queues v i p ∷ rest else rest

  -- What an open connection is to get: its messages in order, until a request that could not be
  -- parsed closes it.
  unfoldable pub due : ℕ → List (ℕ × Option P) → List (Effect P)
  due u [] = []
  due u ((v, some p) ∷ rs) = let rest = due u rs in if v == u then Effect.sends u p ∷ rest else rest
  due u ((v, none) ∷ rs) = let rest = due u rs in if v == u then Effect.closes u ∷ [] else rest

  abbrev pub expected : ℕ → List (ℕ × Option P) → Option ProxyConn → List (Effect P)
  expected u rs o = found o [] (λ c. due u rs)

  on_uuid-append :
      (u : ℕ) (xs ys : List (Effect P)) → on_uuid u (xs ++ ys) ≡ on_uuid u xs ++ on_uuid u ys
  unfolding on_uuid
  on_uuid-append u [] ys = refl
  on_uuid-append u (Effect.sends v p ∷ es) ys =
      keep_append (v == u) (Effect.sends v p) (on_uuid u es) (on_uuid u ys) (on_uuid-append u es ys)
  on_uuid-append u (Effect.closes v ∷ es) ys =
      keep_append (v == u) (Effect.closes v) (on_uuid u es) (on_uuid u ys) (on_uuid-append u es ys)
  on_uuid-append u (Effect.queues v i p ∷ es) ys =
      keep_append (v == u) (Effect.queues v i p) (on_uuid u es) (on_uuid u ys)
        (on_uuid-append u es ys)

  -- What the connection `u` is to get before and after the response to `v`.
  abbrev Due :
      ℕ → (ℕ × Option P) → List (ℕ × Option P) → State P → State P × List (Effect P) → Type 0
  Due u r rs s (s', out) =
      on_uuid u out ++ expected u rs (lookup u s'.uuid_conn_map)
      ≡ expected u (r ∷ rs) (lookup u s.uuid_conn_map)

  -- A send leaves everybody who was there.
  noted_lem :
      (now u v : ℕ) (rs : List (ℕ × Option P)) (c : ProxyConn) (s : State P)
      → expected u rs (lookup u (note_send now v c s).uuid_conn_map)
        ≡ expected u rs (lookup u s.uuid_conn_map)
  unfolding note_send
  noted_lem now u v rs c s =
      ap (expected u rs)
        (lookup-update-found v u (λ d. record d { last_send_tick = now }) s.uuid_conn_map)
      ∙ elim (Option-cases (lookup u s.uuid_conn_map)) [ inl e ↦ rw e | inr (d, e) ↦ rw e ]

  same_lem :
      (now v : ℕ) (o : Option P) (rs : List (ℕ × Option P)) (s : State P)
      → IsKeyed s
      → Due v (v, o) rs s (send_response now v o s)
  unfolding send_response on_uuid due close get_proxy_conn_by_uuid
  same_lem now v none rs s k =
      found_cases (Due v (v, none) rs s) (lookup v s.uuid_conn_map) (λ e. rw e)
        (λ c e.
          let own : (c.uuid == v) ≡ true = ap (λ j. j == v) ((k.keyed v c e).own) ∙ ==_refl v in
          rw ((k.keyed v c e).valid, own, e, lookup-erase c.uuid v s.uuid_conn_map, own, ==_refl v)
            (ap (λ j. Effect.closes j ∷ []) ((k.keyed v c e).own)))
  same_lem now v (some p) rs s k =
      found_cases (Due v (v, some p) rs s) (lookup v s.uuid_conn_map) (λ e. rw e)
        (λ c e.
          let own : (c.uuid == v) ≡ true = ap (λ j. j == v) ((k.keyed v c e).own) ∙ ==_refl v in
          let rest = noted_lem now v v rs c s ∙ ap (expected v rs) e in
          rw (own, e, ==_refl v) (ap₂ (λ j es. Effect.sends j p ∷ es) (k.keyed v c e).own rest))

  other_lem :
      (now u v : ℕ) (o : Option P) (rs : List (ℕ × Option P)) (s : State P)
      → IsKeyed s
      → (v == u) ≡ false
      → Due u (v, o) rs s (send_response now v o s)
  unfolding send_response on_uuid due close get_proxy_conn_by_uuid
  other_lem now u v none rs s k n =
      found_cases (Due u (v, none) rs s) (lookup v s.uuid_conn_map) (λ e. rw n)
        (λ c e.
          let own : (c.uuid == u) ≡ false = ap (λ j. j == u) ((k.keyed v c e).own) ∙ n in
          rw ((k.keyed v c e).valid, own, lookup-erase c.uuid u s.uuid_conn_map, own, n))
  other_lem now u v (some p) rs s k n =
      found_cases (Due u (v, some p) rs s) (lookup v s.uuid_conn_map) (λ e. rw n)
        (λ c e.
          let own : (c.uuid == u) ≡ false = ap (λ j. j == u) ((k.keyed v c e).own) ∙ n in
          rw (own, n) (noted_lem now u v rs c s))

  due_lem :
      (now u v : ℕ) (o : Option P) (rs : List (ℕ × Option P)) (s : State P)
      → IsKeyed s
      → Due u (v, o) rs s (send_response now v o s)
  due_lem now u v o rs s k = elim (Bool-cases (v == u)) [
    | inl same ↦
        subst (λ j. Due j (v, o) rs s (send_response now v o s)) (ground (arith, same))
          (same_lem now v o rs s k)
    | inr other ↦ other_lem now u v o rs s k other
  ]

  sent_lem :
      (now u : ℕ) (rs : List (ℕ × Option P)) (s : State P)
      → IsKeyed s
      → on_uuid u (send_responses now rs s).1 ≡ expected u rs (lookup u s.uuid_conn_map)
  unfolding send_responses on_uuid due
  sent_lem now u [] s k =
      found_cases (λ (r : List (Effect P)). [] ≡ r) (lookup u s.uuid_conn_map) {x = []}
        {f = λ c. []} (λ e. refl) (λ c e. refl)
  sent_lem now u ((v, o) ∷ rs) s k =
      let (s', out) = send_response now v o s in
      on_uuid-append u out (send_responses now rs s').1
      ∙ ap (λ es. on_uuid u out ++ es) (sent_lem now u rs s' (send_response-IsKeyed now v o s k))
      ∙ due_lem now u v o rs s k

  -- In every state that the program can reach from the start by accepting connections, by their OnTimer
  -- and Close, and by responses that are added and sent, as long as no uuid is given that a live
  -- connection has: SendResponsePduList does to each connection what the queued responses say. One that
  -- is open gets its messages in the order of the queue, none of another, up to the first failed
  -- request, for which it is closed; to any other uuid nothing is done.
  pub send_response_pdu_list-due :
      (now u : ℕ) (s : State P)
      → Reached s
      → on_uuid u (send_response_pdu_list now s).1
        ≡ found (get_proxy_conn_by_uuid u s) [] (λ c. due u s.response_pdu_list)
  unfolding send_response_pdu_list get_proxy_conn_by_uuid
  send_response_pdu_list-due now u s r = sent_lem now u s.response_pdu_list s (Reached-IsKeyed s r)
