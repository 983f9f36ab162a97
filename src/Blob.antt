-- ===== src/Blob.antt =====
-- clients/desktop/core/src/blob.rs: the content-addressed blob channel. What the HTTP client
-- answers to a request is an argument. Also `classify_blob_err` of engine.rs, which reads the
-- errors of this module, whose texts are modelled for that.
pub mod Integrity
use copysync.Prelude.{
  ℕ, ◌+◌, ◌/◌, ◌%◌, Bool, ◌&&◌, ◌||◌, List, [], ◌∷◌, ◌++◌, Text, Bytes, codes, leb, text_eq, any,
  contains, if◌then◌else◌,
}
use copysync.Privacy.Chars.{to_ascii_lowercase, trim}
use copysync.World.{Crates, sha_hex}

-- A transport error with its message, or a status with the bytes and the text of the body.
pub data Reply : Type 0 where
  failed : Text → Reply
  response : ℕ → Bytes → Text → Reply

pub data BlobOutcome {ℓ} (A : Type ℓ) : Type ℓ where
  ok : A → BlobOutcome A
  err : Text → BlobOutcome A

unfoldable pub blob_id : Crates → Bytes → Text
unfolding sha_hex
blob_id w content = codes "sha256:" ++ sha_hex w content

abbrev pub is_success : ℕ → Bool
is_success status = leb 200 status && leb status 299

-- A status of three digits in decimal.
unfoldable pub show_status : ℕ → Text
show_status n = (b'0' + n / 100 % 10) ∷ (b'0' + n / 10 % 10) ∷ (b'0' + n % 10) ∷ []

unfoldable pub put_blob : Crates → Bytes → Reply → BlobOutcome Text
unfolding show_status
put_blob w content (failed e) = err e
put_blob w content (response status bytes text) =
    if is_success status
    then ok (blob_id w content)
    else err (codes "blob PUT " ++ (show_status status ++ (codes ": " ++ trim text)))

unfoldable pub get_blob : Crates → Text → Reply → BlobOutcome Bytes
unfolding show_status
get_blob w id (failed e) = err e
get_blob w id (response status bytes text) =
    if is_success status
    then (let got = blob_id w bytes in
        if text_eq got id
        then ok bytes
        else err (codes "blob hash mismatch: requested " ++ (id ++ (codes ", got " ++ got))))
    else err (codes "blob GET " ++ show_status status)

pub data ErrClass : Type 0 where
  permanent transient : ErrClass

abbrev permanent_codes : List Text
permanent_codes =
    codes "400" ∷ codes "401" ∷ codes "403" ∷ codes "404" ∷ codes "413" ∷ codes "422" ∷ []

-- Both of the last branches of the source answer "transient".
unfoldable pub classify_blob_err : Text → ErrClass
classify_blob_err e =
    let s = to_ascii_lowercase e in
    if any (λ code. contains s code) permanent_codes then permanent else transient
