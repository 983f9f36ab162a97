-- ===== src/Engine/Uploads/Served.antt =====
-- A file that is advertised on demand, and the requests for it.
use copysync.Prelude.{
  ℕ, suc, ◌+◌, ◌≡◌, refl, ap, ◌∙◌, true, Option, none, some, [], ◌∷◌, ◌++◌, Text, Bytes, arith,
  text_eq_refl,
}
use copysync.World.{Crates}
use copysync.Config.{Key}
use copysync.Blob.{blob_id}
use copysync.Protocol.{ClipEvent, is_blob}
use copysync.Engine.Holds.{Hold, get, hold_on_demand}
use copysync.Engine.Holds.Laws.{IsHolds, get-hold_on_demand}
use copysync.Engine.State.{Engine, Machine, put_hold, ws_send, add_history}
use copysync.Engine.Trace.{frames}
use copysync.Engine.Uploads.{
  enc_of, payload_of, hold_of, on_demand_mode, file_event, advertised_file, advertise_held,
  send_content, send_file_clip,
}
use copysync.Engine.Frames.{blob_request, serve_hold, handle_frame}

module _ (w : Crates) where
  -- Serving a hold gives the payload, while the file reads as it did.
  serve_hold-payload :
      (later : Machine) (key : Option Key) (i : ℕ) (path id : Text) (content payload : Bytes)
      (s : Engine)
      → payload_of w key i content ≡ some payload
      → later.read_file path ≡ some content
      → (serve_hold w later id (hold_of key path payload) s).jobs
        ≡ s.jobs ++ put_hold id payload ∷ []
  unfolding serve_hold payload_of
  serve_hold-payload later none i path id content payload s same reads =
      rw (serve_hold, reads) (ground (arith, same))
  serve_hold-payload later (some k) i path id content payload s same reads = refl

  request-held :
      (later : Machine) (id : Text) (hold : Hold) (s : Engine)
      → get s.holds id ≡ some hold
      → handle_frame w later (blob_request id) s ≡ serve_hold w later id hold s
  unfolding handle_frame
  request-held later id hold s held = rw (handle_frame, held) refl

  get-held :
      (s : Engine) (id : Text) (hold : Hold)
      → IsHolds s.holds
      → get (hold_on_demand s.holds id hold) id ≡ some hold
  get-held s id hold inv = get-hold_on_demand s.holds id id hold inv ∙ rw (text_eq_refl id) refl

  -- A request for the advertised id gets the payload, whose address it is.
  abbrev pub Answers : Machine → Bytes → Engine → Engine → Type 0
  Answers later payload s t =
      (ev : ClipEvent) × (frames t.out ≡ ev ∷ frames s.out)
      × (ev.on_demand ≡ true)
      × (is_blob ev ≡ true)
      × (ev.enc ≡ enc_of s.key)
      × (ev.blob_id ≡ blob_id w payload)
      × ((handle_frame w later (blob_request ev.blob_id) t).jobs
          ≡ t.jobs ++ put_hold ev.blob_id payload ∷ [])

  module _ (m later : Machine) where
    advertise_held-Answers :
        (i j : ℕ) (path : Text) (content payload : Bytes) (size : ℕ) (s : Engine)
        → IsHolds s.holds
        → payload_of w s.key i content ≡ some payload
        → later.read_file path ≡ some content
        → m.send_ok s.drawn ≡ true
        → Answers later payload s (advertise_held w m j path payload size s).1
    unfolding advertise_held ws_send advertised_file add_history frames file_event is_blob blob_id
    advertise_held-Answers i j path content payload size s inv same reads up =
        rw (advertise_held, ws_send, up)
          (
            _,
            refl,
            refl,
            refl,
            refl,
            refl,
            ap (λ t. t.jobs)
                  (request-held later _ (hold_of s.key path payload) _
                    (get-held s (blob_id w payload) _ inv))
                ∙ serve_hold-payload later s.key i path _ content payload _ same reads,
          )

    -- When a file has been advertised on demand, a request for the advertised id uploads the bytes
    -- that were hashed, whose address is that id, provided the file still reads as it did.
    pub send_file_clip-Answers :
        (path : Text) (size : ℕ) (content payload : Bytes) (s : Engine)
        → IsHolds s.holds
        → m.file_size path ≡ some size
        → m.read_file path ≡ some content
        → payload_of w s.key s.drawn content ≡ some payload
        → on_demand_mode s size ≡ true
        → m.send_ok (s.drawn + 2) ≡ true
        → later.read_file path ≡ some content
        → Answers later payload s (send_file_clip w m path s).1
    unfolding send_file_clip send_content on_demand_mode
    send_file_clip-Answers path size content payload s inv sized reads same mode up again =
        rw (send_file_clip, sized, send_content, reads, same, mode)
          (advertise_held-Answers s.drawn (suc s.drawn) path content payload size
            (record s { seq = suc s.seq; drawn = s.drawn + 2 }) inv same again up)
