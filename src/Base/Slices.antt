-- ===== src/Base/Slices.antt =====
-- How cuts of a list compose, and what a write at an offset leaves readable.
use Prim.Native.Nat.{ℕ, zero, suc, ◌+◌, ◌≤◌}
use Prim.Native.Nat.add
use mathlib.Core.Path.{◌≡◌, refl, ap}
use mathlib.Core.List.{List, [], ◌∷◌, ◌++◌}
use native.Mathlib.Omega.{arith}
use xx_chat.Base.Lists.{length, take, drop, write_at, take-nil, drop-nil}

module _ {ℓ} {A : Type ℓ} where
  pub take-take_le : (m n : ℕ) (xs : List A) → m ≤ n → take m (take n xs) ≡ take m xs
  take-take_le zero n xs h = refl
  take-take_le (suc m) zero xs h = absurd (omega arith)
  take-take_le (suc m) (suc n) [] h = refl
  take-take_le (suc m) (suc n) (x ∷ xs) h = ap (◌∷◌ x) (take-take_le m n xs (omega arith))

  pub take-drop : (m n : ℕ) (xs : List A) → take m (drop n xs) ≡ drop n (take (n + m) xs)
  take-drop m zero xs = rw add.zero
  take-drop m (suc n) [] = rw (take-nil m, take-nil (suc n + m))
  take-drop m (suc n) (x ∷ xs) = rw (add.suc, take-drop m n xs)

  pub take-append_length : (xs ys : List A) → take (length xs) (xs ++ ys) ≡ xs
  take-append_length [] ys = refl
  take-append_length (x ∷ xs) ys = ap (◌∷◌ x) (take-append_length xs ys)

  pub drop-append_length : (xs ys : List A) → drop (length xs) (xs ++ ys) ≡ ys
  drop-append_length [] ys = refl
  drop-append_length (x ∷ xs) ys = drop-append_length xs ys

  -- What is written behind the first `o` items extends them.
  pub take-write_at :
      (xs : List A) (o : ℕ) (ys : List A) (n : ℕ)
      → n ≡ o + length ys
      → n ≤ length xs
      → take n (write_at xs o ys) ≡ take o xs ++ ys
  take-write_at [] zero [] zero e h = refl
  take-write_at [] zero [] (suc n) e h = absurd (omega arith)
  take-write_at [] zero (y ∷ ys) n e h = absurd (omega arith)
  take-write_at [] (suc o) ys n e h = absurd (omega arith)
  take-write_at (x ∷ xs) zero [] zero e h = refl
  take-write_at (x ∷ xs) zero [] (suc n) e h = absurd (omega arith)
  take-write_at (x ∷ xs) zero (y ∷ ys) zero e h = absurd (omega arith)
  take-write_at (x ∷ xs) zero (y ∷ ys) (suc n) e h =
      ap (◌∷◌ y) (take-write_at xs zero ys n (omega arith) (omega arith))
  take-write_at (x ∷ xs) (suc o) ys zero e h = absurd (omega arith)
  take-write_at (x ∷ xs) (suc o) ys (suc n) e h =
      ap (◌∷◌ x) (take-write_at xs o ys n (omega arith) (omega arith))

  -- A write leaves the bytes in front of it.
  pub take-write_at_before :
      (xs : List A) (o : ℕ) (ys : List A) (n : ℕ) → n ≤ o → take n (write_at xs o ys) ≡ take n xs
  take-write_at_before [] o ys n h = refl
  take-write_at_before (x ∷ xs) zero [] n h = refl
  take-write_at_before (x ∷ xs) zero (y ∷ ys) zero h = refl
  take-write_at_before (x ∷ xs) zero (y ∷ ys) (suc n) h = absurd (omega arith)
  take-write_at_before (x ∷ xs) (suc o) ys zero h = refl
  take-write_at_before (x ∷ xs) (suc o) ys (suc n) h =
      ap (◌∷◌ x) (take-write_at_before xs o ys n (omega arith))

  pub drop-drop : (m n : ℕ) (xs : List A) → drop m (drop n xs) ≡ drop (n + m) xs
  drop-drop m zero xs = rw add.zero
  drop-drop m (suc n) [] = rw (drop-nil m, drop-nil (suc n + m))
  drop-drop m (suc n) (x ∷ xs) = rw (add.suc, drop-drop m n xs)

  -- What is read from the place of a write on.
  pub drop-take-write_at :
      (xs : List A) (o : ℕ) (ys : List A) (n w : ℕ)
      → n ≡ o + length ys
      → n ≤ w
      → w ≤ length xs
      → drop o (take w (write_at xs o ys)) ≡ ys ++ drop n (take w xs)
  drop-take-write_at [] zero [] zero w e h k = refl
  drop-take-write_at [] zero [] (suc n) w e h k = absurd (omega arith)
  drop-take-write_at [] zero (y ∷ ys) n w e h k = absurd (omega arith)
  drop-take-write_at [] (suc o) ys n w e h k = absurd (omega arith)
  drop-take-write_at (x ∷ xs) zero [] zero w e h k = refl
  drop-take-write_at (x ∷ xs) zero [] (suc n) w e h k = absurd (omega arith)
  drop-take-write_at (x ∷ xs) zero (y ∷ ys) zero w e h k = absurd (omega arith)
  drop-take-write_at (x ∷ xs) zero (y ∷ ys) (suc n) zero e h k = absurd (omega arith)
  drop-take-write_at (x ∷ xs) zero (y ∷ ys) (suc n) (suc w) e h k =
      ap (◌∷◌ y) (drop-take-write_at xs zero ys n w (omega arith) (omega arith) (omega arith))
  drop-take-write_at (x ∷ xs) (suc o) ys zero w e h k = absurd (omega arith)
  drop-take-write_at (x ∷ xs) (suc o) ys (suc n) zero e h k = absurd (omega arith)
  drop-take-write_at (x ∷ xs) (suc o) ys (suc n) (suc w) e h k =
      drop-take-write_at xs o ys n w (omega arith) (omega arith) (omega arith)
