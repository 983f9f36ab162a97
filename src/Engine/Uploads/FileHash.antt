-- ===== src/Engine/Uploads/FileHash.antt =====
-- `file_sha_hex` of clients/desktop/core/src/engine.rs, which hashes a file piece by piece. The hasher
-- of crate sha2 and what a read returns are arguments.
use copysync.Prelude.{
  ℕ, zero, suc, ◌<◌, ◌≡◌, refl, ap, sym, ◌∙◌, subst, ◌⊎◌, inl, inr, true, false, Option, none, some,
  [], ◌∷◌, ◌++◌, Text, Bytes, min, length, take, drop, is_empty, length-drop, take-append-drop,
  arith, Bool-cases, if◌then◌else◌,
}
use copysync.World.{Crates, sha_hex}

-- `Sha256::new`, `update` and `finalize`, with what the documentation says of them: an update takes
-- more of the message, and `digest` is all three on the whole of it.
pub record Hasher (w : Crates) : Type 1 where
  pub State : Type 0
  pub start : State
  pub update : State → Bytes → State
  pub finalize : State → Bytes
  pub update-empty : (h : State) → update h [] ≡ h
  pub update-append : (h : State) (a b : Bytes) → update (update h a) b ≡ update h (a ++ b)
  pub digest : (b : Bytes) → w.sha256 b ≡ finalize (update start b)

-- What the n-th read answers: an error, or at most so many bytes, at least one unless the file is at
-- its end or the buffer is full.
pub data Read : Type 0 where
  broken : Read
  upto : ℕ → Read

module _ (w : Crates) (h : Hasher w) where
  -- The loop, on fuel; `none` of the result is an error of a read.
  unfoldable pub hash_loop : ℕ → (ℕ → Read) → ℕ → h.State → Bytes → Option (Option Text)
  hash_loop zero reads i st rest = none
  hash_loop (suc fuel) reads i st rest =
      let more : ℕ → Option (Option Text) =
        λ n. hash_loop fuel reads (suc i) (h.update st (take n rest)) (drop n rest) in
      elim (reads i) [
        | broken ↦ some none
        | upto short ↦
            if is_empty rest
            then some (some (w.hex (h.finalize st)))
            else more (min 65536 (suc short))
      ]

  -- Each round but the last takes at least a byte. `none` of the content is that the file does not open.
  unfoldable pub file_sha_hex : Option Bytes → (ℕ → Read) → Option (Option Text)
  unfolding hash_loop
  file_sha_hex none reads = some none
  file_sha_hex (some content) reads = hash_loop (suc (length content)) reads 0 h.start content

  -- Either all of the file is hashed, or a read fails.
  abbrev pub Hashed : (ℕ → Read) → Text → Option (Option Text) → Type 0
  Hashed reads sha r = (r ≡ some (some sha)) ⊎ ((i : ℕ) × (reads i ≡ broken) × (r ≡ some none))

  Read-cases : (r : Read) → (r ≡ broken) ⊎ ((n : ℕ) × (r ≡ upto n))
  Read-cases broken = inl refl
  Read-cases (upto n) = inr (n, refl)

  -- A read that returns something leaves less.
  shorter :
      (fuel short : ℕ) (rest : Bytes)
      → is_empty rest ≡ false
      → length rest < suc fuel
      → length (drop (min 65536 (suc short)) rest) < fuel
  shorter fuel short [] some_left few = cc
  shorter fuel short (b ∷ rest) some_left few =
      omega (arith, length-drop (min 65536 (suc short)) (b ∷ rest), few)

  all_hashed :
      (n : ℕ) (st : h.State) (rest : Bytes)
      → h.update (h.update st (take n rest)) (drop n rest) ≡ h.update st rest
  all_hashed n st rest =
      h.update-append st (take n rest) (drop n rest) ∙ ap (h.update st) (take-append-drop n rest)

  nothing_hashed : (st : h.State) (rest : Bytes) → is_empty rest ≡ true → h.update st rest ≡ st
  nothing_hashed st [] e = h.update-empty st
  nothing_hashed st (b ∷ rest) e = cc

  hash_loop-Hashed :
      (fuel : ℕ) (reads : ℕ → Read) (i : ℕ) (st : h.State) (rest : Bytes)
      → length rest < fuel
      → Hashed reads (w.hex (h.finalize (h.update st rest))) (hash_loop fuel reads i st rest)
  unfolding hash_loop
  hash_loop-Hashed zero reads i st rest few = absurd (omega (arith, few))
  hash_loop-Hashed (suc fuel) reads i st rest few = elim (Read-cases (reads i)) [
    | inl fails ↦ rw (hash_loop, fails) (inr (i, fails, refl))
    | inr (short, is) ↦ elim (Bool-cases (is_empty rest)) [
      | inl over ↦
          rw (hash_loop, is, over)
            (inl (ap (λ x. some (some (w.hex (h.finalize x)))) (sym (nothing_hashed st rest over))))
      | inr left ↦
          (let n = min 65536 (suc short) in
            rw (hash_loop, is, left)
              (subst
                (λ x.
                  Hashed reads (w.hex (h.finalize x))
                    (hash_loop fuel reads (suc i) (h.update st (take n rest)) (drop n rest)))
                (all_hashed n st rest)
                (hash_loop-Hashed fuel reads (suc i) (h.update st (take n rest)) (drop n rest)
                  (shorter fuel short rest left few))))
    ]
  ]

  -- The hash of a file that opens is that of its whole content, however short the reads are, unless
  -- one of them fails; and there is always a result.
  pub file_sha_hex-Hashed :
      (content : Bytes) (reads : ℕ → Read)
      → Hashed reads (sha_hex w content) (file_sha_hex (some content) reads)
  unfolding file_sha_hex sha_hex
  file_sha_hex-Hashed content reads =
      rw (sha_hex, h.digest content)
        (hash_loop-Hashed (suc (length content)) reads 0 h.start content (omega arith))
