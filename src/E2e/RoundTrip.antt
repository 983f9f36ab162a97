-- ===== src/E2e/RoundTrip.antt =====
-- What is sealed, and opened with the same key.
use copysync.Prelude.{
  ℕ, ◌≡◌, refl, ap, subst, ◌∙◌, inl, inr, some, List, [], ◌∷◌, ◌++◌, Bytes, length, length-append,
  take, drop, arith, Option-cases,
}
use copysync.World.{Crates, Laws}
use copysync.E2e.{seal, open_sealed}

take-exact {ℓ} : {A : Type ℓ} (xs ys : List A) → take (length xs) (xs ++ ys) ≡ xs
take-exact [] ys = refl
take-exact (x ∷ xs) ys = ap (◌∷◌ x) (take-exact xs ys)

drop-exact {ℓ} : {A : Type ℓ} (xs ys : List A) → drop (length xs) (xs ++ ys) ≡ ys
drop-exact [] ys = refl
drop-exact (x ∷ xs) ys = drop-exact xs ys

-- The result of a `seal` that succeeds.
pub seal-some :
    (w : Crates) (i : ℕ) (k p c : Bytes)
    → seal w i k p ≡ some c
    → (ct : Bytes) × (w.encrypt k (w.nonce i) p ≡ some ct) × (c ≡ w.nonce i ++ ct)
unfolding seal
seal-some w i k p c h = elim (Option-cases (w.encrypt k (w.nonce i) p)) [
  | inl refused ↦ absurd (ground (arith, refused))
  | inr (ct, e) ↦ (ct, e, ground (arith, e))
]

open_nonce :
    (w : Crates) (k n ct : Bytes) → length n ≡ 12 → open_sealed w k (n ++ ct) ≡ w.decrypt k n ct
unfolding open_sealed
open_nonce w k n ct h =
    let front : take 12 (n ++ ct) ≡ n = subst (λ m. take m (n ++ ct) ≡ n) h (take-exact n ct) in
    let back : drop 12 (n ++ ct) ≡ ct = subst (λ m. drop m (n ++ ct) ≡ ct) h (drop-exact n ct) in
    ground (arith, length-append n ct, front, back)

-- Opening what was sealed under a key gives the plain bytes back, whatever the nonce.
pub open_sealed-seal :
    (w : Crates)
    → Laws w
    → (i : ℕ) (k p c : Bytes) → seal w i k p ≡ some c
    → open_sealed w k c ≡ some p
open_sealed-seal w laws i k p c h =
    let (ct, e, same) = seal-some w i k p c h in
    rw same (
      open_nonce w k (w.nonce i) ct (laws.length-nonce i)
      ∙ laws.decrypt-encrypt k (w.nonce i) p ct e)
