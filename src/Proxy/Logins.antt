-- ===== src/Proxy/Logins.antt =====
-- What the database proxy answers to a login, and that it gives its connection back.
use xx_chat.Base.{
  ℕ, ◌≡◌, ◌≢◌, refl, ap, subst, true, false, Option, none, some, List, [], ◌∷◌, ◌++◌, if◌then◌else◌,
  arith, if_cases, ==_refl,
}
use xx_chat.Proxy.Pool.{DbPool, get_db_conn, get_from, release_db_conn}
use xx_chat.Proxy.PoolLeases.{IsShared, Step, count, remove, called-IsShared}
use xx_chat.Proxy.Business.{
  Row, Request, Message, select_user, same_text, check_password, do_login, using_conn, login_answer,
  handle_login,
}

same_text_refl : (xs : List ℕ) → same_text xs xs ≡ true
same_text_refl [] = refl
same_text_refl (x ∷ xs) = rw (==_refl x) (same_text_refl xs)

same_text→eq : (xs ys : List ℕ) → same_text xs ys ≡ true → xs ≡ ys
same_text→eq [] [] h = refl
same_text→eq [] (y ∷ ys) h = cc
same_text→eq (x ∷ xs) [] h = cc
same_text→eq (x ∷ xs) (y ∷ ys) h = ground (arith, same_text→eq xs ys)

differs : (xs ys : List ℕ) → same_text xs ys ≡ false → xs ≢ ys
differs xs ys h e =
    let same : same_text xs ys ≡ true =
      subst (λ zs. same_text xs zs ≡ true) e (same_text_refl xs) in
    cc

-- The pool with the first connection taken and given back.
abbrev pub reused : DbPool → ℕ → List ℕ → DbPool
reused p conn rest = release_db_conn conn (record p { free_list = rest })

reused-IsShared :
    (p : DbPool) (leased : List ℕ) (conn : ℕ) (rest : List ℕ)
    → IsShared p leased
    → p.free_list ≡ conn ∷ rest
    → IsShared (reused p conn rest) leased
unfolding get_db_conn count remove
reused-IsShared p leased conn rest s e =
    let q : DbPool = record p { free_list = rest } in
    let taken : IsShared q (conn ∷ leased) =
      called-IsShared p q leased (conn ∷ leased) s
        (Step.takes p q leased none conn (λ a h. cc) (ap (get_from none p) e)) in
    let back : IsShared (reused p conn rest) (remove conn (conn ∷ leased)) =
      called-IsShared q (reused p conn rest) (conn ∷ leased) (remove conn (conn ∷ leased)) taken
        (Step.gives_back q (conn ∷ leased) conn (ground arith)) in
    subst (IsShared (reused p conn rest)) (rw (==_refl conn)) back

-- The answer that a login deserves: success with the id of the first row if the password is that of
-- the row, and else failure. Without a row the password to match is the empty one and the id is 0.
pub data Judged (rows : List Row) (name password attach : List ℕ) (seq_num : ℕ)
    : Message → Type 0 where
  right :
      (r : Row) (more : List Row)
      → rows ≡ r ∷ more
      → password ≡ r.password
      → Judged rows name password attach seq_num
          (Message.validate_rsp name attach 0 (some r.id) seq_num)
  wrong :
      (r : Row) (more : List Row)
      → rows ≡ r ∷ more
      → password ≢ r.password
      → Judged rows name password attach seq_num (Message.validate_rsp name attach 1 none seq_num)
  right_without :
      rows ≡ []
      → password ≡ []
      → Judged rows name password attach seq_num
          (Message.validate_rsp name attach 0 (some 0) seq_num)
  wrong_without :
      rows ≡ []
      → password ≢ []
      → Judged rows name password attach seq_num (Message.validate_rsp name attach 1 none seq_num)

-- The answer by the comparison of the password with another.
compared :
    (P : Message → Type 0) (name password attach passwd : List ℕ) (id seq_num : ℕ)
    → (password ≡ passwd → P (Message.validate_rsp name attach 0 (some id) seq_num))
    → (password ≢ passwd → P (Message.validate_rsp name attach 1 none seq_num))
    → P (login_answer name attach seq_num (if same_text password passwd then some id else none))
compared P name password attach passwd id seq_num yes_case no_case =
    if_cases (λ (o : Option ℕ). P (login_answer name attach seq_num o)) (same_text password passwd)
      (λ e. yes_case (same_text→eq password passwd e)) (λ e. no_case (differs password passwd e))

judged_lem :
    (rows : List Row) (name password attach : List ℕ) (seq_num : ℕ)
    → Judged rows name password attach seq_num
        (login_answer name attach seq_num (check_password (some rows) password))
judged_lem [] name password attach seq_num =
    compared (Judged [] name password attach seq_num) name password attach [] 0 seq_num
      (right_without refl) (wrong_without refl)
judged_lem (r ∷ rows) name password attach seq_num =
    compared (Judged (r ∷ rows) name password attach seq_num) name password attach r.password r.id
      seq_num (right r rows refl) (wrong r rows refl)

module _ (execute_query : List ℕ → Option (List Row)) where
  do_login_lem :
      (made : Option ℕ) (name password : List ℕ) (p : DbPool) (conn : ℕ) (rest : List ℕ)
      → p.free_list ≡ conn ∷ rest
      → do_login execute_query made name password p
        ≡ some (
          check_password (execute_query (select_user ++ name ++ (39 ∷ []))) password,
          reused p conn rest,
        )
  unfolding do_login get_db_conn
  do_login_lem made name password p conn rest e =
      ap
        (λ xs.
          using_conn (get_from made p xs) none
            (check_password (execute_query (select_user ++ name ++ (39 ∷ []))) password))
        e

  module _ (parse_validate_req : List ℕ → Option (List ℕ × List ℕ × List ℕ))
      (parse_all_user_req : List ℕ → Option (ℕ × List ℕ)) where
    -- With a free connection and a query that succeeds, DoLogin answers a request that can be parsed
    -- with the request's sequence number: success and the id of the first row if the password is the
    -- one of that row, or failure; if the name has no row, success with the id 0 for the empty
    -- password. The connection is free again, and the pool is as it should be.
    pub handle_login_lem :
        (made : Option ℕ) (pdu : Request) (p : DbPool) (leased : List ℕ) (conn : ℕ) (rest : List ℕ)
        (name password attach : List ℕ) (rows : List Row)
        → IsShared p leased
        → p.free_list ≡ conn ∷ rest
        → parse_validate_req pdu.body ≡ some (name, password, attach)
        → execute_query (select_user ++ name ++ (39 ∷ [])) ≡ some rows
        → (p' : DbPool) × (m : Message) × (handle_login execute_query parse_validate_req
              parse_all_user_req made pdu p
            ≡ some (p', some m))
          × IsShared p' leased
          × Judged rows name password attach pdu.seq_num m
    unfolding handle_login
    handle_login_lem made pdu p leased conn rest name password attach rows s e parsed found_rows = (
      reused p conn rest,
      login_answer name attach pdu.seq_num (check_password (some rows) password),
      rw (parsed, do_login_lem made name password p conn rest e, found_rows),
      reused-IsShared p leased conn rest s e,
      judged_lem rows name password attach pdu.seq_num,
    )
