-- ===== src/Privacy/Card/Luhn.antt =====
-- What the Luhn checksum catches.
use mathlib.Core.List.{reverse, reverse-cons, reverse-append, append_assoc}
use native.Mathlib.Nat.{zero-add}
use copysync.Prelude.{
  ℕ, suc, ◌+◌, ◌%◌, ◌<◌, ◌≡◌, ap, ◌≢◌, inl, inr, true, false, List, [], ◌∷◌, ◌++◌, arith, length,
  Bool-cases,
}
use copysync.Privacy.Card.{luhn_term, luhn_loop, luhn_ok}

luhn_sum : ℕ → List ℕ → ℕ
luhn_sum i [] = 0
luhn_sum i (d ∷ ds) = luhn_term i d + luhn_sum (suc i) ds

luhn_loop-eq-sum : (i sum : ℕ) (ds : List ℕ) → luhn_loop i sum ds ≡ sum + luhn_sum i ds
unfolding luhn_loop luhn_sum
luhn_loop-eq-sum i sum [] = omega arith
luhn_loop-eq-sum i sum (d ∷ ds) = omega (arith, luhn_loop-eq-sum (suc i) (sum + luhn_term i d) ds)

luhn_sum-append :
    (i : ℕ) (xs ys : List ℕ) → luhn_sum i (xs ++ ys) ≡ luhn_sum i xs + luhn_sum (i + length xs) ys
unfolding luhn_sum
luhn_sum-append i [] ys = omega (arith, ap (λ k. luhn_sum k ys) (shift i))
  where
    shift : (k : ℕ) → k ≡ k + 0
    shift k = omega arith
luhn_sum-append i (x ∷ xs) ys =
    omega (arith, luhn_sum-append (suc i) xs ys, ap (λ k. luhn_sum k ys) (shift (length xs)))
  where
    shift : (k : ℕ) → i + suc k ≡ suc i + k
    shift k = omega arith

-- A digit's term tells it apart from every other digit, modulo ten.
luhn_term-injective :
    (i d e a b : ℕ)
    → d < 10
    → e < 10
    → (a + luhn_term i d + b) % 10 ≡ 0
    → (a + luhn_term i e + b) % 10 ≡ 0
    → d ≡ e
unfolding luhn_term
luhn_term-injective i d e a b p q h k = ground arith

luhn_ok-sum : (ds : List ℕ) → luhn_ok ds ≡ true → luhn_sum 0 (reverse ds) % 10 ≡ 0
unfolding luhn_ok
luhn_ok-sum ds h = ground (arith, luhn_loop-eq-sum 0 0 (reverse ds))

-- The sum over the reversed number, split at one digit.
luhn_sum-split :
    (xs ys : List ℕ) (d : ℕ)
    → luhn_sum 0 (reverse (xs ++ d ∷ ys))
      ≡ luhn_sum 0 (reverse ys)
        + luhn_term (length (reverse ys)) d
        + luhn_sum (suc (length (reverse ys))) (reverse xs)
luhn_sum-split xs ys d =
    rw (reverse-append xs, reverse-cons d ys, append_assoc, luhn_sum-append, zero-add)
      (unfold luhn_sum in omega arith)

-- A valid number with one digit changed is not valid.
pub luhn_ok-one_digit :
    (xs ys : List ℕ) (d e : ℕ)
    → d < 10
    → e < 10
    → d ≢ e
    → luhn_ok (xs ++ d ∷ ys) ≡ true
    → luhn_ok (xs ++ e ∷ ys) ≡ false
luhn_ok-one_digit xs ys d e p q ne valid = elim (Bool-cases (luhn_ok (xs ++ e ∷ ys))) [
  | inr no_good ↦ no_good
  | inl good ↦ absurd (
      ne (
        luhn_term-injective (length (reverse ys)) d e (luhn_sum 0 (reverse ys))
          (luhn_sum (suc (length (reverse ys))) (reverse xs)) p q
          (rw (luhn_sum-split xs ys d) at (luhn_ok-sum _ valid))
          (rw (luhn_sum-split xs ys e) at (luhn_ok-sum _ good))))
]
