-- ===== src/Route/ClientTypes.antt =====
-- The counts of client types of a user on the route server.
use xx_chat.Base.{
  ℕ, ◌+◌, ◌-◌, ◌%◌, ◌^◌, ◌<◌, ◌≡◌, ap, ◌∙◌, true, Option, none, some, List, [], ◌∷◌, ltb, ◌==◌,
  if◌then◌else◌, arith, ◌⊎◌, Bool-cases, if_cases, lookup, put, place, update, erase, lookup-erase,
  inl, inr,
}
use xx_chat.Base.Options.{found, found_cases}
use xx_chat.Route.{UserInfo, add_client_type, remove_client_type, get_count_by_client_type}

-- The count of a type in a list.
abbrev count : ℕ → List (ℕ × ℕ) → ℕ
count t m = found (lookup t m) 0 (λ n. n)

count-place :
    (k t : ℕ) (m : List (ℕ × ℕ))
    → lookup k m ≡ none
    → count t (place k 1 m) ≡ (if k == t then 1 else count t m)
unfolding lookup place
count-place k t [] h = ground arith
count-place k t ((j, n) ∷ m) h = ground (arith, count-place k t m)

count-update :
    (k t : ℕ) (f : ℕ → ℕ) (m : List (ℕ × ℕ)) (n : ℕ)
    → lookup k m ≡ some n
    → count t (update k f m) ≡ (if k == t then f n else count t m)
unfolding lookup update
count-update k t f [] n h = cc
count-update k t f ((j, w) ∷ m) n h = ground (arith, count-update k t f m n)

count-erase : (k t : ℕ) (m : List (ℕ × ℕ)) → count t (erase k m) ≡ (if k == t then 0 else count t m)
count-erase k t m = rw (lookup-erase k t m) (ground arith)

same_count : (k t : ℕ) (m : List (ℕ × ℕ)) → (k == t) ≡ true → count t m ≡ count k m
same_count k t m e = ap (λ j. count j m) (ground (arith, e))

added :
    (k t c : ℕ) (m : List (ℕ × ℕ))
    → count k m ≡ c
    → (if k == t then c + 1 else count t m) ≡ count t m + (if k == t then 1 else 0)
added k t c m h = elim (Bool-cases (k == t)) [
  | inl same ↦ rw same (omega (arith, same_count k t m same, h))
  | inr other ↦ rw other (omega arith)
]

taken :
    (k t c : ℕ) (m : List (ℕ × ℕ))
    → count k m ≡ c
    → (if k == t then c - 1 else count t m) ≡ count t m - (if k == t then 1 else 0)
taken k t c m h = elim (Bool-cases (k == t)) [
  | inl same ↦ rw same (omega (arith, same_count k t m same, h))
  | inr other ↦ rw other (omega arith)
]

absent :
    (k t : ℕ) (m : List (ℕ × ℕ)) → count k m ≡ 0 → count t m ≡ count t m - (if k == t then 1 else 0)
absent k t m h = elim (Bool-cases (k == t)) [
  | inl same ↦ rw same (omega (arith, same_count k t m same, h))
  | inr other ↦ rw other (omega arith)
]

stored : (o : Option ℕ) (n c : ℕ) → (o ≡ none) ⊎ (0 < c) → o ≡ some n → c ≡ n → 0 < n
stored o n c (inl missing) e h = cc
stored o n c (inr more) e h = omega (arith, more, h)

add_lem :
    (k t : ℕ) (u : UserInfo)
    → get_count_by_client_type k u + 1 < 2 ^ 32
    → get_count_by_client_type t (add_client_type k u)
      ≡ get_count_by_client_type t u + (if k == t then 1 else 0)
unfolding get_count_by_client_type add_client_type put
add_lem k t u h =
    let m = u.client_type_list in
    found_cases
      (λ (v : UserInfo). get_count_by_client_type t v ≡ count t m + (if k == t then 1 else 0))
      (lookup k m)
      (λ e.
        let putting : put k 1 m ≡ place k 1 m = rw e in
        let zero : count k m ≡ 0 = ap (λ o. found o 0 (λ n. n)) e in
        ap (count t) putting ∙ count-place k t m e ∙ added k t 0 m zero)
      (λ n e.
        let here : count k m ≡ n = ap (λ o. found o 0 (λ n. n)) e in
        count-update k t (λ n. (n + 1) % 2 ^ 32) m n e
        ∙ ap (λ c. if k == t then c else count t m) (omega (arith, here, h))
        ∙ added k t n m here)

remove_lem :
    (k t : ℕ) (u : UserInfo)
    → get_count_by_client_type k u < 2 ^ 32
    → (lookup k u.client_type_list ≡ none) ⊎ (0 < get_count_by_client_type k u)
    → get_count_by_client_type t (remove_client_type k u)
      ≡ get_count_by_client_type t u - (if k == t then 1 else 0)
unfolding get_count_by_client_type remove_client_type
remove_lem k t u h positive =
    let m = u.client_type_list in
    found_cases
      (λ (v : UserInfo). get_count_by_client_type t v ≡ count t m - (if k == t then 1 else 0))
      (lookup k m) (λ e. absent k t m (ap (λ o. found o 0 (λ n. n)) e))
      (λ n e.
        let here : count k m ≡ n = ap (λ o. found o 0 (λ n. n)) e in
        let more : 0 < n = stored (lookup k m) n (count k m) positive e here in
        if_cases
          (λ (v : UserInfo). get_count_by_client_type t v ≡ count t m - (if k == t then 1 else 0))
          (ltb 0 ((n + 2 ^ 32 - 1) % 2 ^ 32))
          (λ some_left.
            count-update k t (λ j. (n + 2 ^ 32 - 1) % 2 ^ 32) m n e
            ∙ ap (λ c. if k == t then c else count t m) (omega (arith, here, h, more))
            ∙ taken k t n m here)
          (λ last.
            count-erase k t m
            ∙ ap (λ c. if k == t then c else count t m) {y = n - 1}
                (ground (arith, here, h, more, last))
            ∙ taken k t n m here))

-- For a type with fewer than 2^32 - 1 clients, of which the list keeps no count of 0, AddClientType
-- counts one more and RemoveClientType one less, or still none without one; no other count changes.
pub client_type_lem :
    (k t : ℕ) (u : UserInfo)
    → get_count_by_client_type k u + 1 < 2 ^ 32
    → (lookup k u.client_type_list ≡ none) ⊎ (0 < get_count_by_client_type k u)
    → (get_count_by_client_type t (add_client_type k u)
        ≡ get_count_by_client_type t u + (if k == t then 1 else 0))
      × (get_count_by_client_type t (remove_client_type k u)
          ≡ get_count_by_client_type t u - (if k == t then 1 else 0))
client_type_lem k t u h positive = (add_lem k t u h, remove_lem k t u (omega (arith, h)) positive)
