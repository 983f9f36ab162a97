-- ===== src/History/Rows.antt =====
-- The rows of the history: the newest entry comes first, and a purge removes its own row only.
use copysync.Prelude.{ℕ, suc, ◌<◌, ◌≤◌, ◌≡◌, refl, true, not, List, [], ◌∷◌, keep, arith, ◌==◌}
use copysync.Prelude.Utf8.{AllScalar}
use copysync.World.{Crates, Laws}
use copysync.History.{Entry, History, add, recent, delete}
use copysync.History.AtRest.{Seals, decrypt_field-encrypt_field}

-- Row ids fall along the table and stay below the next one.
abbrev pub Below : ℕ → List Entry → Type 0
Below n [] = Unit {0}
Below n (e ∷ rows) = (e.id < n) × Below e.id rows

abbrev pub IsTable : History → Type 0
IsTable h = Below h.next_id h.rows

Below-mono : (m n : ℕ) (rows : List Entry) → m ≤ n → Below m rows → Below n rows
Below-mono m n [] h b = tt
Below-mono m n (e ∷ rows) h b = (omega arith, b.1)

keep-Below :
    (id n : ℕ) (rows : List Entry) → Below n rows → Below n (keep (λ e. not (e.id == id)) rows)
unfolding keep
keep-Below id n [] b = tt
keep-Below id n (e ∷ rows) b =
    ground
      (arith, keep-Below id e.id rows b.1, Below-mono e.id n (keep (λ e. not (e.id == id)) rows))

keep_all :
    (id n : ℕ) (rows : List Entry)
    → Below n rows
    → n ≤ id
    → keep (λ e. not (e.id == id)) rows ≡ rows
unfolding keep
keep_all id n [] b h = refl
keep_all id n (e ∷ rows) b h = ground (arith, keep_all id e.id rows b.1)

module _ (w : Crates) where
  -- `add` and `delete` keep the ids distinct and below the next one.
  pub add-IsTable : (h : History) (i : ℕ) (e : Entry) → IsTable h → IsTable (add w h i e).1
  unfolding add
  add-IsTable h i e t = ground arith

  -- A purge of the row that `add` has just written restores the table.
  pub delete-add :
      (h : History) (i : ℕ) (e : Entry)
      → h.writable ≡ true
      → IsTable h
      → (delete (add w h i e).1 h.next_id).rows ≡ h.rows
  unfolding add delete keep
  delete-add h i e ok t = ground (arith, keep_all h.next_id h.next_id h.rows t)

  -- After an entry has been added it is the first of the recent ones, in clear, before those that
  -- were there.
  pub recent-add :
      (h : History) (i : ℕ) (e : Entry) (n : ℕ)
      → Laws w
      → h.writable ≡ true
      → AllScalar e.preview
      → AllScalar e.name
      → Seals w i h.key e.preview
      → Seals w (suc i) h.key e.name
      → recent w (add w h i e).1 (suc n) ≡ record e { id = h.next_id } ∷ recent w h n
  unfolding recent add
  recent-add h i e n laws ok vp vn sp sn = rw (
    ok,
    decrypt_field-encrypt_field w i h.key e.preview laws vp sp,
    decrypt_field-encrypt_field w (suc i) h.key e.name laws vn sn,
  )

pub delete-IsTable : (h : History) (id : ℕ) → IsTable h → IsTable (delete h id)
unfolding delete
delete-IsTable h id t = ground (arith, keep-Below id h.next_id h.rows t)
