-- ===== src/Strings/Replace.antt =====
-- strReplace against a description by one pass over the text.
use xx_chat.Base.{
  ℕ, zero, suc, drop-drop, drop-append_length, take-append_length, le→leb, length-take, ◌+◌, ◌-◌,
  ◌≤◌, ◌<◌, ◌≡◌, refl, sym, ap, ap₂, ◌∙◌, ◌⊎◌, inl, inr, true, Option, none, some, List, [], ◌∷◌,
  ◌++◌, length, take, drop, if◌then◌else◌, arith, Bool-cases, append_assoc, length-append,
}
use xx_chat.Strings.{matches, find_at, find, replace, replace_loop, str_replace}

-- Left to right: where the text begins with the pattern, `dst` stands for it, and the pass goes on behind
-- it; every other byte stays. `skip` bytes of a pattern are still to be left out.
pub replaced : List ℕ → List ℕ → ℕ → List ℕ → List ℕ
unfolding matches
replaced src dst skip [] = []
replaced src dst (suc skip) (x ∷ xs) = replaced src dst skip xs
replaced src dst zero (x ∷ xs) =
    if matches src (x ∷ xs)
    then dst ++ replaced src dst (length src - 1) xs
    else x ∷ replaced src dst zero xs

matches_lem : (src xs : List ℕ) → matches src xs ≡ true → xs ≡ src ++ drop (length src) xs
unfolding matches
matches_lem [] xs h = refl
matches_lem (p ∷ ps) [] h = cc
matches_lem (p ∷ ps) (x ∷ xs) h =
    let e : x ≡ p = ground arith in
    let t : matches ps xs ≡ true = ground arith in ap₂ ◌∷◌ e (matches_lem ps xs t)

replaced-drop :
    (src dst : List ℕ) (k : ℕ) (xs : List ℕ)
    → replaced src dst k xs ≡ replaced src dst zero (drop k xs)
unfolding replaced
replaced-drop src dst zero xs = refl
replaced-drop src dst (suc k) [] = refl
replaced-drop src dst (suc k) (x ∷ xs) = replaced-drop src dst k xs

-- The text up to the first pattern, and the rest behind it.
record Finds (src dst xs : List ℕ) (at_ p : ℕ) : Type 0 where
  before : List ℕ
  after : List ℕ
  text : xs ≡ before ++ (src ++ after)
  place : p ≡ at_ + length before
  rest : replaced src dst zero xs ≡ before ++ (dst ++ replaced src dst zero after)

-- What find returns.
abbrev Found : List ℕ → List ℕ → List ℕ → ℕ → Option ℕ → Type 0
Found src dst xs at_ o =
    (o ≡ none × (replaced src dst zero xs ≡ xs)) ⊎ ((p : ℕ) × (o ≡ some p) × Finds src dst xs at_ p)

find_at-Found :
    (y : ℕ) (src dst xs : List ℕ) (at_ : ℕ) → Found (y ∷ src) dst xs at_ (find_at (y ∷ src) xs at_)
unfolding find_at replaced matches
find_at-Found y src dst [] at_ = inl (refl, refl)
find_at-Found y src dst (x ∷ xs) at_ = elim (Bool-cases (matches (y ∷ src) (x ∷ xs))) [
  | inl here ↦ inr (
    at_,
    rw here,
    record {
      before = [];
      after = drop (length src) xs;
      text = matches_lem (y ∷ src) (x ∷ xs) here;
      place = omega arith;
      rest = rw here (
          ap (λ k. dst ++ replaced (y ∷ src) dst k xs) {y = length src} (omega arith)
          ∙ ap (λ ys. dst ++ ys) (replaced-drop (y ∷ src) dst (length src) xs));
    },
  )
  | inr later ↦ elim (find_at-Found y src dst xs (at_ + 1)) [
    | inl (e, r) ↦ inl (rw later e, rw later (ap (◌∷◌ x) r))
    | inr (p, e, f) ↦ inr (
      p,
      rw later e,
      record {
        before = x ∷ f.before;
        after = f.after;
        text = ap (◌∷◌ x) f.text;
        place = omega (arith, f.place);
        rest = rw later (ap (◌∷◌ x) f.rest);
      },
    )
  ]
]

-- The text and the index after one replacement, when the loop has come to the end of `done`.
step_lem :
    (done before src after dst : List ℕ)
    → replace (done ++ (before ++ (src ++ after))) (length done + length before) (length src) dst
      ≡ (done ++ (before ++ dst)) ++ after
step_lem done before src after dst =
    let head = done ++ before in
    let e = sym (append_assoc done before (src ++ after)) in
    let l : length done + length before ≡ length head = sym (length-append done before) in
    let behind =
      ap (drop (length src)) (ap₂ drop l e ∙ drop-append_length head (src ++ after))
      ∙ drop-append_length src after in
    ap₂ ◌++◌ (ap₂ take l e ∙ take-append_length head (src ++ after))
      (ap (λ ys. dst ++ ys) (sym (drop-drop (length src) (length done + length before) _) ∙ behind))
    ∙ sym (append_assoc head dst after)
    ∙ ap (λ ys. ys ++ after) (append_assoc done before dst)

loop_lem :
    (fuel y : ℕ) (src dst done rest : List ℕ)
    → length rest < fuel
    → replace_loop fuel (done ++ rest) (y ∷ src) dst (length done)
      ≡ some (done ++ replaced (y ∷ src) dst zero rest)
unfolding replace_loop find
loop_lem zero y src dst done rest h = absurd (omega arith)
loop_lem (suc fuel) y src dst done rest h =
    let long : length done ≤ length (done ++ rest) = omega (arith, length-append done rest) in
    let f : find (done ++ rest) (y ∷ src) (length done) ≡ find_at (y ∷ src) rest (length done) =
      rw (le→leb (length done) (length (done ++ rest)) long)
        (ap (λ ys. find_at (y ∷ src) ys (length done)) (drop-append_length done rest)) in
    elim (find_at-Found y src dst rest (length done)) [
      | inl (e, r) ↦ rw (f ∙ e) (ap (λ ys. some (done ++ ys)) (sym r))
      | inr (p, e, d) ↦
          let head = done ++ (d.before ++ dst) in
          let text =
            ap₂ (λ ys k. replace (done ++ ys) k (length (y ∷ src)) dst) d.text d.place
            ∙ step_lem done d.before (y ∷ src) d.after dst in
          let place : p + length dst ≡ length head =
            omega
              (arith, d.place, length-append done (d.before ++ dst), length-append d.before dst) in
          let shorter : length d.after < fuel = omega (
            arith,
            h,
            ap length d.text,
            length-append d.before ((y ∷ src) ++ d.after),
            length-append (y ∷ src) d.after,
          ) in
          rw (f ∙ e) (
            ap₂ (λ ys k. replace_loop fuel ys (y ∷ src) dst k) text place
            ∙ loop_lem fuel y src dst head d.after shorter
            ∙ ap some (
                append_assoc done (d.before ++ dst) _
                ∙ ap (λ ys. done ++ ys) (append_assoc d.before dst _ ∙ sym d.rest)))
    ]

-- strReplace ends on every text if the string to be replaced is not empty, after at most as many turns
-- as the text has bytes and one more, and gives what one pass from left to right gives, which does not
-- look at the inserted text again.
pub str_replace_lem :
    (str dst : List ℕ) (y : ℕ) (src : List ℕ)
    → str_replace str (y ∷ src) dst ≡ some (replaced (y ∷ src) dst zero str)
unfolding str_replace
str_replace_lem str dst y src = loop_lem (length str + 1) y src dst [] str (omega arith)

find_at_empty : (xs : List ℕ) (k : ℕ) → find_at [] xs k ≡ some k
unfolding find_at matches
find_at_empty [] k = refl
find_at_empty (x ∷ xs) k = refl

-- With an empty string to be replaced, no number of turns is enough.
pub replace_loop_empty :
    (fuel : ℕ) (str dst : List ℕ) (pos : ℕ)
    → pos ≤ length str
    → replace_loop fuel str [] dst pos ≡ none
unfolding replace_loop find find_at matches
replace_loop_empty zero str dst pos h = refl
replace_loop_empty (suc fuel) str dst pos h =
    let f : find str [] pos ≡ some pos =
      rw (le→leb pos (length str) h) (find_at_empty (drop pos str) pos) in
    let longer : pos + length dst ≤ length (replace str pos 0 dst) = omega (
      arith,
      h,
      length-append (take pos str) (dst ++ drop (pos + 0) str),
      length-append dst (drop (pos + 0) str),
      length-take pos str,
    ) in
    rw f (replace_loop_empty fuel (replace str pos 0 dst) dst (pos + length dst) longer)
