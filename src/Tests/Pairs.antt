-- ===== src/Tests/Pairs.antt =====
-- Two engines, one of which sends to the other.
use copysync.Prelude.{◌≡◌, refl, inl, ◌⊎◌, true, none, [], ◌∷◌, ◌++◌, codes, arith}
use copysync.World.{toy, toy-Laws}
use copysync.E2e.{seal}
use copysync.Blob.{response}
use copysync.Protocol.{ClipEvent}
use copysync.Engine.Holds.Laws.{no_holds-IsHolds}
use copysync.Engine.State.{get_clip, put_hold}
use copysync.Engine.Trace.{frames}
use copysync.Engine.Uploads.{payload_of, on_demand_mode, send_file_clip}
use copysync.Engine.SendText.{send_text_clip}
use copysync.Engine.SendText.Sent.{Obstacle}
use copysync.Engine.Frames.{clip, blob_request, report, handle_frame}
use copysync.Engine.Incoming.{apply_text, apply_content}
use copysync.Engine.Actor.{result_arm}
use copysync.Engine.EndToEnd.{handle_frame-send_text_clip, handle_frame-send_file_clip}
use copysync.Tests.Values.{engine, machine, cipher}

handle_frame-send_text_clip_example :
    let t = (send_text_clip toy machine (codes "hi") none engine).1 in
    ((frames t.out ≡ frames engine.out) × Obstacle toy machine (codes "hi") none engine)
    ⊎ ((ev : ClipEvent) × (frames t.out ≡ ev ∷ frames engine.out)
        × (handle_frame toy machine (clip ev) engine
            ≡ apply_text toy machine ev (codes "hi") none engine))
handle_frame-send_text_clip_example =
    handle_frame-send_text_clip toy machine machine (codes "hi") none engine engine toy-Laws
      (inl (omega arith), (inl (omega arith), tt)) tt refl

handle_frame-send_file_clip_example :
    let t = (send_file_clip toy machine (codes "/tmp/a.bin") engine).1 in
    (ev : ClipEvent) × (frames t.out ≡ ev ∷ frames engine.out)
    × ((handle_frame toy machine (clip ev) engine).jobs ≡ [] ++ get_clip ev ∷ [])
    × ((handle_frame toy machine (blob_request ev.blob_id) t).jobs
        ≡ t.jobs ++ put_hold ev.blob_id cipher ∷ [])
    × (result_arm toy machine (report toy (get_clip ev) (response 200 cipher [])) engine
        ≡ (true, apply_content toy machine ev (1 ∷ 2 ∷ []) engine))
unfolding payload_of seal on_demand_mode
handle_frame-send_file_clip_example =
    handle_frame-send_file_clip toy machine machine machine (codes "/tmp/a.bin") 2 (1 ∷ 2 ∷ [])
      cipher [] engine engine engine toy-Laws no_holds-IsHolds refl refl refl refl refl refl refl
