-- ===== src/Proxy/PoolLeases.antt =====
-- Who has which connection of a DBPool, over any interleaving of its calls.
use xx_chat.Base.{
  ℕ, suc, ◌+◌, ◌≤◌, ◌<◌, ◌≡◌, refl, sym, ap, subst, false, ◌⊎◌, inl, inr, Option, some, List, [],
  ◌∷◌, ◌++◌, length, leb, ◌==◌, if◌then◌else◌, arith, length-append, if_cases,
}
use xx_chat.Base.Options.{found_cases}
use xx_chat.Proxy.Pool.{
  DbPool, Taken, new_db_pool, init, grown, get_empty, get_from, get_db_conn, contains,
  release_db_conn, pop,
}

unfoldable pub count : ℕ → List ℕ → ℕ
count a [] = 0
count a (x ∷ xs) = if x == a then suc (count a xs) else count a xs

unfoldable pub remove : ℕ → List ℕ → List ℕ
remove a [] = []
remove a (x ∷ xs) = if x == a then xs else x ∷ remove a xs

-- Each connection of the pool is either free or leased to one thread, all of them are counted, and
-- there are at most `max_db_conn_cnt`, or 2.
pub record IsShared (p : DbPool) (leased : List ℕ) : Type 0 where
  pub once : (a : ℕ) → count a p.free_list + count a leased ≤ 1
  pub total : length p.free_list + length leased ≡ p.cur_db_conn_cnt
  pub bound : (p.cur_db_conn_cnt ≤ p.max_db_conn_cnt) ⊎ (p.cur_db_conn_cnt ≤ 2)

-- One call of a thread.
pub data Step : DbPool → List ℕ → DbPool → List ℕ → Type 0 where
  takes :
      (p p' : DbPool) (leased : List ℕ) (made : Option ℕ) (conn : ℕ)
      → ((a : ℕ) → made ≡ some a → count a p.free_list + count a leased ≡ 0)
      → get_db_conn made p ≡ Taken.got conn p'
      → Step p leased p' (conn ∷ leased)
  gives_back :
      (p : DbPool) (leased : List ℕ) (conn : ℕ)
      → 0 < count conn leased
      → Step p leased (release_db_conn conn p) (remove conn leased)

pub data Steps (p : DbPool) (leased : List ℕ) : DbPool → List ℕ → Type 0 where
  done : Steps p leased p leased
  then_ :
      (q : DbPool) (l : List ℕ) (q' : DbPool) (l' : List ℕ)
      → Steps p leased q l
      → Step q l q' l'
      → Steps p leased q' l'

count-append : (a : ℕ) (xs ys : List ℕ) → count a (xs ++ ys) ≡ count a xs + count a ys
unfolding count
count-append a [] ys = omega arith
count-append a (x ∷ xs) ys = ground (arith, count-append a xs ys)

contains_lem : (a : ℕ) (xs : List ℕ) → count a xs ≡ 0 → contains a xs ≡ false
unfolding count contains
contains_lem a [] h = refl
contains_lem a (x ∷ xs) h = ground (arith, contains_lem a xs)

count-remove :
    (a b : ℕ) (xs : List ℕ)
    → 0 < count a xs
    → count b (remove a xs) + (if a == b then 1 else 0) ≡ count b xs
unfolding count remove
count-remove a b [] h = omega (arith, h)
count-remove a b (x ∷ xs) h = ground (arith, count-remove a b xs)

count-one : (a b : ℕ) → count b (a ∷ []) ≡ (if a == b then 1 else 0)
unfolding count
count-one a b = ground arith

length-remove : (a : ℕ) (xs : List ℕ) → 0 < count a xs → suc (length (remove a xs)) ≡ length xs
unfolding count remove
length-remove a [] h = omega (arith, h)
length-remove a (x ∷ xs) h = ground (arith, length-remove a xs)

gives_back-IsShared :
    (p : DbPool) (leased : List ℕ) (conn : ℕ)
    → IsShared p leased
    → 0 < count conn leased
    → IsShared (release_db_conn conn p) (remove conn leased)
unfolding release_db_conn
gives_back-IsShared p leased conn s h =
    let free : contains conn p.free_list ≡ false =
      contains_lem conn p.free_list (omega (arith, s.once conn, h)) in
    let put : DbPool = record p { free_list = p.free_list ++ (conn ∷ []) } in
    subst (λ b. IsShared (if b then p else put) (remove conn leased)) (sym free)
      (record {
        once = λ a. omega (
          arith,
          s.once a,
          count-append a p.free_list (conn ∷ []),
          count-one conn a,
          count-remove conn a leased h,
        );
        total =
            omega
              (arith, s.total, length-remove conn leased h, length-append p.free_list (conn ∷ []));
        bound = s.bound;
      })

-- What a call of GetDBConn leaves to the threads.
abbrev After : List ℕ → Taken → Type 0
After leased (Taken.got conn p) = IsShared p (conn ∷ leased)
After leased (Taken.failed p) = IsShared p leased
After leased (Taken.waits p) = IsShared p leased

made-IsShared :
    (p : DbPool) (leased : List ℕ) (conn : ℕ)
    → IsShared p leased
    → p.free_list ≡ []
    → p.cur_db_conn_cnt < p.max_db_conn_cnt
    → count conn p.free_list + count conn leased ≡ 0
    → IsShared (record (grown p conn) { free_list = [] }) (conn ∷ leased)
unfolding grown count
made-IsShared p leased conn s e lt fresh = record {
  once = λ a. ground (arith, s.once a, fresh);
  total = omega (arith, s.total, ap length e);
  bound = inl (omega (arith, lt));
}

get_from-After :
    (made : Option ℕ) (p : DbPool) (leased : List ℕ) (xs : List ℕ)
    → IsShared p leased
    → p.free_list ≡ xs
    → ((a : ℕ) → made ≡ some a → count a p.free_list + count a leased ≡ 0)
    → After leased (get_from made p xs)
unfolding get_empty grown count
get_from-After made p leased [] s e fresh =
    if_cases (After leased) (leb p.max_db_conn_cnt p.cur_db_conn_cnt) (λ full. s)
      (λ room.
        found_cases (After leased) made (λ no. s)
          (λ conn got.
            subst (λ xs. After leased (pop (grown p conn) (xs ++ (conn ∷ [])))) (sym e)
              (made-IsShared p leased conn s e (ground (arith, room)) (fresh conn got))))
get_from-After made p leased (conn ∷ rest) s e fresh = record {
  once = λ a. ground (arith, s.once a, ap (count a) e);
  total = omega (arith, s.total, ap length e);
  bound = s.bound;
}

pub called-IsShared :
    (p p' : DbPool) (leased leased' : List ℕ)
    → IsShared p leased
    → Step p leased p' leased'
    → IsShared p' leased'
unfolding get_db_conn
called-IsShared _ _ _ _ s (takes q q' l made conn fresh e) =
    subst (After l) e (get_from-After made q l q.free_list s refl fresh)
called-IsShared _ _ _ _ s (gives_back q l conn h) = gives_back-IsShared q l conn s h

-- After Init has made two connections, and then whatever threads take and give back connections,
-- each only those it has, no connection is at two threads or free while a thread has it, and there
-- are no more than `max_conn_cnt` connections, or 2, all of them free or at a thread.
pub interleaved-IsShared :
    (max_conn_cnt a b : ℕ) (p : DbPool) (leased : List ℕ)
    → (a == b) ≡ false
    → Steps (init (some a ∷ some b ∷ []) (new_db_pool max_conn_cnt)).0 [] p leased
    → IsShared p leased
unfolding init new_db_pool count
interleaved-IsShared max_conn_cnt a b p leased other done = record {
  once = λ x. ground (arith, other);
  total = refl;
  bound = inr (omega arith);
}
interleaved-IsShared max_conn_cnt a b p leased other (then_ q l q' l' steps step) =
    called-IsShared q q' l l' (interleaved-IsShared max_conn_cnt a b q l other steps) step
