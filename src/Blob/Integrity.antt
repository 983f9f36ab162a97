-- ===== src/Blob/Integrity.antt =====
-- The bytes of a blob that is fetched, and its id.
use copysync.Prelude.{◌≡◌, Text, Bytes, text_eq_iff, arith}
use copysync.World.{Crates}
use copysync.Blob.{Reply, failed, response, ok, blob_id, get_blob}

-- Whatever the server answers, bytes that `get_blob` accepts have the requested id as their
-- address.
pub get_blob-blob_id :
    (w : Crates) (id : Text) (reply : Reply) (bytes : Bytes)
    → get_blob w id reply ≡ ok bytes
    → blob_id w bytes ≡ id
unfolding get_blob
get_blob-blob_id w id (failed e) bytes h = cc
get_blob-blob_id w id (response status body text) bytes h =
    ground (arith, text_eq_iff (blob_id w body) id)
