-- ===== src/Strings/Tokens.antt =====
-- Strtok against a description by one pass over the text.
use xx_chat.Base.{
  ℕ, zero, suc, ◌+◌, ◌-◌, ◌<◌, ◌≡◌, refl, sym, ap, ap₂, ◌∙◌, ◌⊎◌, inl, inr, Option, none, some,
  List, [], ◌∷◌, ◌++◌, length, take, drop, ltb, if◌then◌else◌, arith, if_cases, Bool-cases,
  append_assoc, append-nil, length-append, drop-append_length, take-append_length,
}
use xx_chat.Strings.{is_one_of, find_first_of, strtok_loop, strtok}

-- A substring is kept if it is not empty.
pub emit : List ℕ → List (List ℕ) → List (List ℕ)
emit [] ret = ret
emit (c ∷ cs) ret = (c ∷ cs) ∷ ret

-- Left to right: `word` collects the bytes since the last delimiter, and each delimiter ends it.
pub words : List ℕ → List ℕ → List ℕ → List (List ℕ)
words delims word [] = emit word []
words delims word (x ∷ xs) =
    if is_one_of delims x then emit word (words delims [] xs) else words delims (word ++ x ∷ []) xs

-- The next delimiter, and the text in front of it and behind it.
record Cuts (delims xs : List ℕ) (at_ p : ℕ) : Type 0 where
  before : List ℕ
  mark : ℕ
  after : List ℕ
  text : xs ≡ before ++ (mark ∷ after)
  place : p ≡ at_ + length before
  rest : (word : List ℕ) → words delims word xs ≡ emit (word ++ before) (words delims [] after)

abbrev Cut : List ℕ → List ℕ → ℕ → Option ℕ → Type 0
Cut delims xs at_ o =
    (o ≡ none × ((word : List ℕ) → words delims word xs ≡ emit (word ++ xs) []))
    ⊎ ((p : ℕ) × (o ≡ some p) × Cuts delims xs at_ p)

find_first_of-Cut : (delims xs : List ℕ) (at_ : ℕ) → Cut delims xs at_ (find_first_of delims xs at_)
unfolding find_first_of words
find_first_of-Cut delims [] at_ = inl (refl, λ word. ap (λ w. emit w []) (sym (append-nil word)))
find_first_of-Cut delims (x ∷ xs) at_ = elim (Bool-cases (is_one_of delims x)) [
  | inl here ↦ inr (
    at_,
    rw here,
    record {
      before = [];
      mark = x;
      after = xs;
      text = refl;
      place = omega arith;
      rest = λ word. rw here (ap (λ w. emit w (words delims [] xs)) (sym (append-nil word)));
    },
  )
  | inr later ↦ elim (find_first_of-Cut delims xs (at_ + 1)) [
    | inl (e, r) ↦ inl (
      rw later e,
      λ word. rw later (r (word ++ x ∷ []) ∙ ap (λ w. emit w []) (append_assoc word (x ∷ []) xs)),
    )
    | inr (p, e, c) ↦ inr (
      p,
      rw later e,
      record {
        before = x ∷ c.before;
        mark = c.mark;
        after = c.after;
        text = ap (◌∷◌ x) c.text;
        place = omega (arith, c.place);
        rest = λ word. rw later (
            c.rest (word ++ x ∷ [])
            ∙ ap (λ w. emit w (words delims [] c.after)) (append_assoc word (x ∷ []) c.before));
      },
    )
  ]
]

last_lem :
    (done rest : List ℕ)
    → (if ltb (length done) (length (done ++ rest))
        then drop (length done) (done ++ rest) ∷ []
        else [])
      ≡ emit rest []
unfolding emit
last_lem done [] =
    if_cases (λ (r : List (List ℕ)). r ≡ []) (ltb (length done) (length (done ++ [])))
      (λ more. absurd (ground (arith, length-append done []))) (λ _. refl)
last_lem done (x ∷ xs) =
    if_cases (λ (r : List (List ℕ)). r ≡ (x ∷ xs) ∷ [])
      (ltb (length done) (length (done ++ x ∷ xs)))
      (λ _. ap (λ ys. ys ∷ []) (drop-append_length done (x ∷ xs)))
      (λ no_more. absurd (ground (arith, length-append done (x ∷ xs))))

between_lem :
    (done before rest : List ℕ) (ret : List (List ℕ)) (pos : ℕ)
    → pos ≡ length done + length before
    → (if ltb (length done) pos
        then take (pos - length done) (drop (length done) (done ++ (before ++ rest))) ∷ ret
        else ret)
      ≡ emit before ret
unfolding emit
between_lem done [] rest ret pos e =
    if_cases (λ (r : List (List ℕ)). r ≡ ret) (ltb (length done) pos)
      (λ more. absurd (ground (arith, e))) (λ _. refl)
between_lem done (b ∷ bs) rest ret pos e =
    if_cases (λ (r : List (List ℕ)). r ≡ (b ∷ bs) ∷ ret) (ltb (length done) pos)
      (λ _.
        ap (λ ys. ys ∷ ret)
          (ap₂ take {x = pos - length done} {y = length (b ∷ bs)} (omega (arith, e))
              (drop-append_length done ((b ∷ bs) ++ rest))
            ∙ take-append_length (b ∷ bs) rest))
      (λ no_more. absurd (ground (arith, e)))

strtok_loop_lem :
    (fuel : ℕ) (delims done rest : List ℕ)
    → length rest < fuel
    → strtok_loop fuel (done ++ rest) delims (length done) ≡ some (words delims [] rest)
unfolding strtok_loop
strtok_loop_lem zero delims done rest h = absurd (omega arith)
strtok_loop_lem (suc fuel) delims done rest h =
    let f = ap (λ ys. find_first_of delims ys (length done)) (drop-append_length done rest) in
    elim (find_first_of-Cut delims rest (length done)) [
      | inl (e, r) ↦ rw (f ∙ e) (ap some (last_lem done rest ∙ sym (r [])))
      | inr (p, e, c) ↦
          let head = done ++ (c.before ++ c.mark ∷ []) in
          let text =
            ap (λ ys. done ++ ys) (c.text ∙ sym (append_assoc c.before (c.mark ∷ []) c.after))
            ∙ sym (append_assoc done (c.before ++ c.mark ∷ []) c.after) in
          let place : p + 1 ≡ length head = omega (
            arith,
            c.place,
            length-append done (c.before ++ c.mark ∷ []),
            length-append c.before (c.mark ∷ []),
          ) in
          let shorter : length c.after < fuel =
            omega (arith, h, ap length c.text, length-append c.before (c.mark ∷ c.after)) in
          let ret = words delims [] c.after in
          let ih =
            ap₂ (λ ys k. strtok_loop fuel ys delims k) text place
            ∙ strtok_loop_lem fuel delims head c.after shorter in
          rw (f ∙ e, ih)
            (ap some (
              ap
                (λ ys.
                  if ltb (length done) p
                  then take (p - length done) (drop (length done) (done ++ ys)) ∷ ret
                  else ret)
                c.text
              ∙ between_lem done c.before (c.mark ∷ c.after) ret p c.place
              ∙ sym (c.rest [])))
    ]

-- Strtok ends on every text, after at most as many turns as the text has bytes and one more, and
-- returns the substrings between the delimiters, from left to right, without the empty ones.
pub strtok_lem : (s delims : List ℕ) → strtok s delims ≡ some (words delims [] s)
unfolding strtok
strtok_lem s delims = strtok_loop_lem (length s + 1) delims [] s (omega arith)
