-- ===== src/Tests/Blobs.antt =====
-- The clips of files: uploaded, stashed, held, served and received; and the history.
use mathlib.Core.List.{append-nil, append_assoc}
use copysync.Prelude.{
  Bytes, ◌+◌, ◌*◌, length, ◌≡◌, refl, true, false, some, List, [], ◌∷◌, ◌++◌, Text, codes, is_empty,
  text_eq, Bool,
}
use copysync.World.{sha_hex, toy, toy-Laws}
use copysync.Blob.{response, ok, blob_id, get_blob}
use copysync.Engine.Holds.Laws.{no_holds-IsHolds}
use copysync.Engine.State.{Engine, Upload, Machine, ws_send}
use copysync.Engine.Trace.{frames}
use copysync.Engine.Incoming.Stored.{writes, StoredIn, apply_blob-StoredIn}
use copysync.Protocol.{ClipEvent, default_event}
use copysync.Engine.Incoming.{apply_content, apply_blob}
use copysync.Engine.Incoming.BlobDelivery.{apply_blob-payload}
use copysync.Engine.Uploads.{image_event, file_event, payload_of, on_demand_mode, send_file_clip}
use copysync.Engine.Uploads.Served.{Answers, send_file_clip-Answers}
use copysync.Engine.Actor.{
  requeue_pending, uploaded, start, requeue, requeue_broken, advertised, connected, backoff,
  disconnect,
}
use copysync.Engine.Actor.Stash.{Stopped, sent_after, requeue_pending-split}
use copysync.Engine.Run.{Run, stay, go_on, dialled, settle}
use copysync.Engine.Run.Listed.{In}
use copysync.Engine.Run.Delivered.{Run-delivered}
use copysync.Engine.Uploads.FileHash.{Hasher, upto, Hashed, file_sha_hex, file_sha_hex-Hashed}
use copysync.Tests.Values.{greeting, cipher, engine, machine, upload}
use copysync.E2e.{seal}

abbrev stashed : Engine
stashed = record engine { pending = upload ∷ upload ∷ [] }

requeue_pending-split_example :
    let r = requeue_pending toy machine stashed in
    (done : List Upload) × (rest : List Upload) × (upload ∷ upload ∷ [] ≡ done ++ rest)
    × (frames r.1.out ≡ sent_after [] done)
    × (r.1.pending ≡ rest)
    × (r.0 ≡ is_empty rest)
    × Stopped toy machine (0 + 3 * length done) rest
unfolding frames
requeue_pending-split_example = requeue_pending-split toy machine stashed

send_file_clip-Answers_example :
    Answers toy machine cipher engine (send_file_clip toy machine (codes "/tmp/a.bin") engine).1
unfolding payload_of seal on_demand_mode
send_file_clip-Answers_example =
    send_file_clip-Answers toy machine machine (codes "/tmp/a.bin") 2 (1 ∷ 2 ∷ []) cipher engine
      no_holds-IsHolds refl refl refl refl refl refl

abbrev address : Text
address = blob_id toy (5 ∷ [])

fetched : get_blob toy address (response 200 (5 ∷ []) []) ≡ ok (5 ∷ [])
unfolding get_blob blob_id sha_hex text_eq
fetched = refl

-- A name that would climb out of the folder.
abbrev climbing : ClipEvent
climbing = record default_event { name = codes "../../etc/passwd"; blob_id = address }

apply_blob-StoredIn_example :
    StoredIn toy machine
      (codes "/dl")
      (writes [])
      (writes (apply_blob toy machine climbing (5 ∷ []) engine).out)
apply_blob-StoredIn_example =
    apply_blob-StoredIn toy machine climbing (response 200 (5 ∷ []) []) (5 ∷ []) engine toy-Laws
      fetched

apply_blob-payload_example :
    (apply_blob toy machine (image_event toy machine 1 cipher 2 engine) cipher engine
      ≡ apply_content toy machine (image_event toy machine 1 cipher 2 engine) (1 ∷ 2 ∷ []) engine)
    × (apply_blob toy machine
          (file_event toy machine 1 (codes "/a.txt") cipher 2 true engine)
          cipher
          engine
        ≡ apply_content toy machine
            (file_event toy machine 1 (codes "/a.txt") cipher 2 true engine)
            (1 ∷ 2 ∷ [])
            engine)
unfolding payload_of seal
apply_blob-payload_example =
    apply_blob-payload toy machine machine 0 1 2 (codes "/a.txt") true (1 ∷ 2 ∷ []) cipher engine
      engine toy-Laws refl refl

-- A machine whose connection has broken.
abbrev broken : Machine
broken = record machine { send_ok = λ i. false }

abbrev online : Engine
online = (start toy machine greeting engine).1

abbrev lost : Bool × Engine
lost = settle toy broken 0 (uploaded toy broken upload online)

abbrev again : Engine
again = (start toy machine greeting lost.1).1

-- A connection that is there, and one after a failed dial.
online-Run : Run toy (false, engine) (true, online)
unfolding start requeue_broken requeue_pending requeue connected
online-Run =
    go_on (false, engine) (false, engine) (true, online) (stay (false, engine))
      (dialled machine greeting engine)

again-Run : Run toy lost (true, again)
unfolding start requeue_broken requeue_pending requeue uploaded advertised settle ws_send connected
    backoff disconnect
again-Run = go_on lost lost (true, again) (stay lost) (dialled machine greeting lost.1)

Run-delivered_example : In upload.ev (frames again.out)
Run-delivered_example =
    Run-delivered toy broken 0 upload engine online again refl online-Run again-Run

-- A hasher that keeps what it has been given.
abbrev hasher : Hasher toy
hasher = record {
  State = Bytes;
  start = [];
  update = λ h b. h ++ b;
  finalize = toy.sha256;
  update-empty = λ h. append-nil h;
  update-append = λ h a b. append_assoc h a b;
  digest = λ b. refl;
}

-- A file of three bytes, read one by one, or two.
file_sha_hex-Hashed_example :
    Hashed toy hasher
      (λ n. upto n)
      (sha_hex toy (1 ∷ 2 ∷ 3 ∷ []))
      (file_sha_hex toy hasher (some (1 ∷ 2 ∷ 3 ∷ [])) (λ n. upto n))
file_sha_hex-Hashed_example = file_sha_hex-Hashed toy hasher (1 ∷ 2 ∷ 3 ∷ []) (λ n. upto n)
