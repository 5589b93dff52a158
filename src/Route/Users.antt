-- ===== src/Route/Users.antt =====
-- What the route server keeps of a user when connections end, and when clients come and go.
use xx_chat.Base.{
  ℕ, ◌≡◌, ◌≢◌, refl, ap, ◌∙◌, subst, Bool, true, false, ◌||◌, not, Option, none, some, List, [],
  ◌∷◌, ◌==◌, if◌then◌else◌, if_cases, arith, Each, lookup, lookup-erase, All,
}
use xx_chat.Base.Options.{found, found_cases}
use xx_chat.Route.{
  RouteConn, UserInfo, State, remove_route_conn, remove_conn, close, others, send_pdu_to_user,
  get_user_info,
}

-- The user is known by a connection, and by none that is `a`.
pub record IsWithout (a : ℕ) (u : UserInfo) : Type 0 where
  pub gone : lookup a u.route_conn_set ≡ none
  pub some_left : u.route_conn_set ≢ []

erased_lem : (a : ℕ) (u : UserInfo) → lookup a (remove_route_conn a u).route_conn_set ≡ none
unfolding remove_route_conn
erased_lem a u = lookup-erase a a u.route_conn_set ∙ ground arith

kept_lem :
    (a i : ℕ) (v : UserInfo) (set : List (ℕ × Unit {0})) (rest : List (ℕ × UserInfo))
    → v.route_conn_set ≡ set
    → lookup a v.route_conn_set ≡ none
    → Each (IsWithout a) rest
    → Each (IsWithout a) (elim set [ [] ↦ rest | e ∷ es ↦ (i, v) ∷ rest ])
kept_lem a i v [] rest e gone r = r
kept_lem a i v (x ∷ xs) rest e gone r = (record { gone = gone; some_left = λ z. cc }, r)

removed_lem : (a : ℕ) (m : List (ℕ × UserInfo)) → Each (IsWithout a) (remove_conn a m)
unfolding remove_conn
removed_lem a [] = tt
removed_lem a ((i, u) ∷ m) =
    kept_lem a i (remove_route_conn a u) (remove_route_conn a u).route_conn_set (remove_conn a m)
      refl (erased_lem a u) (removed_lem a m)

-- After RouteConn::Close every user in the table has a connection, and none has the closed one.
pub close-IsWithout :
    (a : ℕ) (c : RouteConn) (s : State) → Each (IsWithout a) (close a c s).user_map
unfolding close
close-IsWithout a c s = removed_lem a _

first_or :
    {V : Type 0} (P : V → Type 0) (b : Bool) (w : V) (o : Option V) (v : V)
    → P w
    → (o ≡ some v → P v)
    → (if b then some w else o) ≡ some v
    → P v
first_or P true w o v h rest e = subst P (ap (λ p. found p w (λ x. x)) e) h
first_or P false w o v h rest e = rest e

lookup-Each :
    {V : Type 0} (P : V → Type 0) (k : ℕ) (m : List (ℕ × V)) (v : V)
    → Each P m
    → lookup k m ≡ some v
    → P v
unfolding lookup
lookup-Each P k [] v h e = cc
lookup-Each P k ((j, w) ∷ m) v (h, hs) e =
    first_or P (j == k) w (lookup k m) v h (lookup-Each P k m v hs) e

others-All :
    (a b : ℕ) (all : Bool) (set : List (ℕ × Unit {0}))
    → lookup a set ≡ none
    → All (λ x. x ≢ a) (others b all set)
unfolding lookup others
others-All a b all [] h = tt
others-All a b all ((x, t) ∷ set) h =
    let other : (x == a) ≡ false = ground (arith, h) in
    let rest = others-All a b all set (ground (arith, h)) in
    if_cases (All (λ y. y ≢ a)) (all || not (x == b)) (λ e. ((λ z. ground (arith, other, z)), rest))
      (λ e. rest)

-- After RouteConn::Close no message to a user is sent on the closed connection, whoever sends it, and
-- to all connections of the user or not.
pub send_pdu_to_user-close :
    (a : ℕ) (c : RouteConn) (s : State) (sender user_id : ℕ) (all : Bool)
    → All (λ x. x ≢ a) (send_pdu_to_user sender user_id all (close a c s))
unfolding send_pdu_to_user get_user_info
send_pdu_to_user-close a c s sender user_id all =
    found_cases (All (λ x. x ≢ a)) (lookup user_id (close a c s).user_map) (λ e. tt)
      (λ u e.
        others-All a sender all u.route_conn_set
          (lookup-Each (IsWithout a) user_id (close a c s).user_map u (close-IsWithout a c s)
            e).gone)
