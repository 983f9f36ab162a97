-- ===== src/History.antt =====
-- clients/desktop/core/src/history.rs: the local history. The table of the SQLite file is a list of
-- rows, newest first; each method has the effect of its SQL statement. `writable` tells whether the
-- database accepts a write.
pub mod AtRest
pub mod Rows
use mathlib.Core.Option
use copysync.Prelude.{
  ℕ, suc, ◌+◌, Bool, true, false, not, ◌||◌, Option, none, some, List, [], ◌∷◌, ◌++◌, map, Text,
  Bytes, codes, utf8, strip_prefix, contains, is_empty, keep, take, ◌==◌, if◌then◌else◌,
}
use copysync.Prelude.Utf8.{from_utf8_lossy}
use copysync.World.{Crates}
use copysync.E2e.{seal, open_sealed}

-- A row of `clips`, and an `Entry` read from it.
pub record Entry : Type 0 where
  pub id : ℕ
  pub ts : Text
  pub kind : Text
  pub origin : Text
  pub direction : Text
  pub preview : Text
  pub mime : Text
  pub size : ℕ
  pub blob_id : Text
  pub name : Text

-- `next_id` is the rowid that AUTOINCREMENT gives next.
pub record History : Type 0 where
  pub rows : List Entry
  pub next_id : ℕ
  pub key : Option Bytes
  pub writable : Bool

sealed_field : Crates → Text → Option Bytes → Text
sealed_field w s none = s
sealed_field w s (some ct) = codes "enc:" ++ w.base64 ct

-- At the draw `i` of the random source.
unfoldable pub encrypt_field : Crates → ℕ → Option Bytes → Text → Text
unfolding sealed_field
encrypt_field w i none s = s
encrypt_field w i (some k) s = if is_empty s then s else sealed_field w s (seal w i k (utf8 s))

-- The text of a stored field that opens, or else the field as it stands.
opened_field : Crates → Bytes → Text → Option Text → Text
opened_field w k s none = s
opened_field w k s (some b64) = elim (w.unbase64 b64) [
  | none ↦ s
  | some raw ↦ elim (open_sealed w k raw) [ none ↦ s | some pt ↦ from_utf8_lossy pt ]
]

unfoldable pub decrypt_field : Crates → Option Bytes → Text → Text
unfolding opened_field
decrypt_field w none s = s
decrypt_field w (some k) s = opened_field w k s (strip_prefix s (codes "enc:"))

module _ (w : Crates) where
  -- The `Entry` that `query` builds from a row.
  unfoldable pub read_row : Option Bytes → Entry → Entry
  read_row key e = record e {
    preview = decrypt_field w key e.preview;
    name = decrypt_field w key e.name;
  }

  -- What the arguments of `add` say of an entry; the id is the table's.
  unfoldable pub add : History → ℕ → Entry → Option ℕ × History
  add h i e =
      if h.writable
      then (
        some h.next_id,
        record h {
          rows =
              record e {
                id = h.next_id;
                preview = encrypt_field w i h.key e.preview;
                name = encrypt_field w (suc i) h.key e.name;
              }
              ∷ h.rows;
          next_id = h.next_id + 1;
        },
      )
      else (none, h)

  -- `ORDER BY id DESC LIMIT`
  unfoldable pub recent : History → ℕ → List Entry
  unfolding read_row
  recent h limit = map (read_row h.key) (take limit h.rows)

  hit : Text → Entry → Bool
  hit ql e = contains (w.to_lowercase e.preview) ql || contains (w.to_lowercase e.name) ql

  unfoldable pub search : History → Text → ℕ → List Entry
  unfolding hit
  search h q limit = take limit (keep (hit (w.to_lowercase q)) (recent h 5000))

unfoldable pub delete : History → ℕ → History
delete h id = if h.writable then record h { rows = keep (λ e. not (e.id == id)) h.rows } else h
