-- ===== src/Prelude/Slices.antt =====
-- `take` and `drop` of joined lists, with native indices.
use Prim.Native.Nat.{ℕ, zero, suc, ◌+◌, ◌-◌, ◌≤◌}
use mathlib.Core.Path.{◌≡◌, refl, ap}
use mathlib.Core.List.{List, [], ◌∷◌, ◌++◌}
use native.Mathlib.Omega.{arith}
use opengrab.Prelude.Lists.{length, take, drop}

module _ {ℓ} {A : Type ℓ} where
  pub take-all : (n : ℕ) (xs : List A) → length xs ≤ n → take n xs ≡ xs
  take-all zero [] h = refl
  take-all zero (x ∷ xs) h = absurd (omega arith)
  take-all (suc n) [] h = refl
  take-all (suc n) (x ∷ xs) h = ap (λ t. x ∷ t) (take-all n xs (omega arith))

  pub take-append_le : (n : ℕ) (xs ys : List A) → n ≤ length xs → take n (xs ++ ys) ≡ take n xs
  take-append_le zero xs ys h = refl
  take-append_le (suc n) [] ys h = absurd (omega arith)
  take-append_le (suc n) (x ∷ xs) ys h = ap (λ t. x ∷ t) (take-append_le n xs ys (omega arith))

  pub drop-zero : (n : ℕ) (xs : List A) → n ≡ 0 → drop n xs ≡ xs
  drop-zero n xs e = rw e

  pub drop-nil_eq : (n : ℕ) → drop {A = A} n [] ≡ []
  drop-nil_eq zero = refl
  drop-nil_eq (suc n) = refl

  drop-nil : (n : ℕ) (ys : List A) → drop n ys ≡ drop {A = A} n [] ++ drop n ys
  drop-nil zero ys = refl
  drop-nil (suc n) ys = refl

  pub drop-all : (n : ℕ) (xs : List A) → length xs ≤ n → drop n xs ≡ []
  drop-all zero [] h = refl
  drop-all zero (x ∷ xs) h = absurd (omega arith)
  drop-all (suc n) [] h = refl
  drop-all (suc n) (x ∷ xs) h = drop-all n xs (omega arith)

  -- A cut goes on behind the first list by what is left of it.
  pub drop-append :
      (n : ℕ) (xs ys : List A) → drop n (xs ++ ys) ≡ drop n xs ++ drop (n - length xs) ys
  drop-append n [] ys = let p : n - 0 ≡ n = omega arith in rw p (drop-nil n ys)
  drop-append zero (x ∷ xs) ys = let p : 0 - suc (length xs) ≡ 0 = omega arith in rw p
  drop-append (suc n) (x ∷ xs) ys =
      let p : suc n - suc (length xs) ≡ n - length xs = omega arith in rw p (drop-append n xs ys)

  pub drop-drop : (a b c : ℕ) (xs : List A) → c ≡ b + a → drop a (drop b xs) ≡ drop c xs
  drop-drop a zero c xs e = let p : a ≡ c = omega arith in rw p
  drop-drop a (suc b) zero xs e = absurd (omega arith)
  drop-drop zero (suc b) (suc c) [] e = refl
  drop-drop (suc a) (suc b) (suc c) [] e = refl
  drop-drop a (suc b) (suc c) (x ∷ xs) e = drop-drop a b c xs (omega arith)
