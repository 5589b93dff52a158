-- ===== src/Proxy/Pool.antt =====
-- DBPool of xx_chat_server/src/db_proxy_server/db_pool.h and db_pool.cpp: connections to the database
-- that threads take and give back.
-- A connection is its address. A function runs under the mutex of the pool; where it waits on the
-- condition variable it gives `waits`, and runs again when it is woken. Connecting to the database is
-- a parameter: the address of the new connection, or `none` if `Init` fails.
use xx_chat.Base.{
  ℕ, ◌+◌, Bool, true, false, ◌||◌, Option, none, some, List, [], ◌∷◌, ◌++◌, leb, ◌==◌,
  if◌then◌else◌,
}
use xx_chat.Base.Options.{found}

pub record DbPool : Type 0 where
  pub cur_db_conn_cnt : ℕ
  pub max_db_conn_cnt : ℕ
  pub free_list : List ℕ

abbrev pub min_db_conn_cnt : ℕ
min_db_conn_cnt = 2

unfoldable pub new_db_pool : ℕ → DbPool
new_db_pool max_conn_cnt = record {
  cur_db_conn_cnt = min_db_conn_cnt;
  max_db_conn_cnt = max_conn_cnt;
  free_list = [];
}

-- Init: the connections that could be made, in order; false is the failure of one.
unfoldable pub init : List (Option ℕ) → DbPool → DbPool × Bool
init [] p = (p, true)
init (none ∷ made) p = (p, false)
init (some conn ∷ made) p = init made (record p { free_list = p.free_list ++ (conn ∷ []) })

pub data Taken : Type 0 where
  got : (conn : ℕ) → DbPool → Taken
  failed : DbPool → Taken
  waits : DbPool → Taken

-- The end of GetDBConn: the front of the list, which is not empty.
abbrev pub pop : DbPool → List ℕ → Taken
pop p [] = Taken.waits p
pop p (conn ∷ rest) = Taken.got conn (record p { free_list = rest })

unfoldable pub grown : DbPool → ℕ → DbPool
grown p conn = record p {
  free_list = p.free_list ++ (conn ∷ []);
  cur_db_conn_cnt = p.cur_db_conn_cnt + 1;
}

unfoldable pub get_empty : Option ℕ → DbPool → Taken
get_empty made p =
    if leb p.max_db_conn_cnt p.cur_db_conn_cnt
    then Taken.waits p
    else found made (Taken.failed p) (λ conn. pop (grown p conn) (grown p conn).free_list)

abbrev pub get_from : Option ℕ → DbPool → List ℕ → Taken
get_from made p [] = get_empty made p
get_from made p (conn ∷ rest) = pop p (conn ∷ rest)

unfoldable pub get_db_conn : Option ℕ → DbPool → Taken
get_db_conn made p = get_from made p p.free_list

unfoldable pub contains : ℕ → List ℕ → Bool
contains a [] = false
contains a (x ∷ xs) = (x == a) || contains a xs

-- A connection that is in the list already is not put there again.
unfoldable pub release_db_conn : ℕ → DbPool → DbPool
release_db_conn conn p =
    if contains conn p.free_list then p else record p { free_list = p.free_list ++ (conn ∷ []) }
