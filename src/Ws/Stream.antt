-- ===== src/Ws/Stream.antt =====
-- Frames that one end writes, and what the other one gets.
use copysync.Prelude.{
  ℕ, zero, suc, ◌≡◌, refl, sym, ap, ◌∙◌, Bool, true, false, some, List, [], ◌∷◌, ◌++◌, map, Text,
  Bytes, length, text_eq, if◌then◌else◌,
}
use mathlib.Core.List.{append-nil, append_assoc}
use copysync.Protocol.Json.{Json, null, as_str}
use copysync.Ws.{
  Serde, SerdeLaws, envelope, in_envelope, visit_map, WsMessage, text, binary, ping, pong, Item,
  message, Received, frame, received, keepalive_tag, Socket, encode, decode, send, recv,
}

-- The frames of one end, one after the other, until one is not written.
abbrev pub send_all : Serde → List (Text × Json) → Socket → Bool × Socket
send_all c [] s = (true, s)
send_all c ((t, d) ∷ fs) s =
    let (sent, s1) = send c t (some d) s in
    let rest = send_all c fs s1 in if sent then rest else (false, s1)

-- `n` calls of `recv`.
abbrev pub collect : Serde → ℕ → List Item → List Received
collect c zero items = []
collect c (suc n) items = let (r, rest) = recv c items in r ∷ collect c n rest

-- What arrives: some empty messages, then a frame or a control message.
pub data Arrival : Type 0 where
  sent : ℕ → Text × Json → Arrival
  pinged ponged : ℕ → Bytes → Arrival

abbrev pub frame_of : Serde → Text × Json → WsMessage
frame_of c (t, d) = binary (c.to_vec (envelope t d))

abbrev pub frames_of : List Arrival → List (Text × Json)
frames_of [] = []
frames_of (sent k f ∷ xs) = f ∷ frames_of xs
frames_of (pinged k b ∷ xs) = frames_of xs
frames_of (ponged k b ∷ xs) = frames_of xs

abbrev pub after_empty : ℕ → WsMessage → List Item → List Item
after_empty zero m items = message m ∷ items
after_empty (suc k) m items = message (text []) ∷ after_empty k m items

abbrev pub arrivals : Serde → List Arrival → List Item → List Item
arrivals c [] later = later
arrivals c (sent k f ∷ xs) later = after_empty k (frame_of c f) (arrivals c xs later)
arrivals c (pinged k b ∷ xs) later = after_empty k (ping b) (arrivals c xs later)
arrivals c (ponged k b ∷ xs) later = after_empty k (pong b) (arrivals c xs later)

abbrev pub got : Arrival → Received
got (sent k (t, d)) = frame t d
got (pinged k b) = frame keepalive_tag null
got (ponged k b) = frame keepalive_tag null

module _ (c : Serde) (laws : SerdeLaws c) where
  decode-envelope : (t : Text) (d : Json) → decode c (c.to_vec (envelope t d)) ≡ some (t, d)
  unfolding decode envelope in_envelope visit_map text_eq as_str
  decode-envelope t d = rw (decode, laws.from_slice-to_vec (envelope t d)) refl

  recv-after_empty :
      (k : ℕ) (m : WsMessage) (items : List Item)
      → recv c (after_empty k m items) ≡ recv c (message m ∷ items)
  unfolding recv
  recv-after_empty zero m items = refl
  recv-after_empty (suc k) m items = recv-after_empty k m items

  recv-frame :
      (t : Text) (d : Json) (items : List Item)
      → recv c (message (frame_of c (t, d)) ∷ items) ≡ (frame t d, items)
  unfolding recv
  recv-frame t d items =
      ap (λ b. if b then recv c items else (received (decode c (c.to_vec (envelope t d))), items))
        (laws.is_empty-to_vec (envelope t d))
      ∙ ap (λ r. (received r, items)) (decode-envelope t d)

  recv-arrival :
      (a : Arrival) (xs : List Arrival) (later : List Item)
      → recv c (arrivals c (a ∷ xs) later) ≡ (got a, arrivals c xs later)
  unfolding recv
  recv-arrival (sent k (t, d)) xs later =
      recv-after_empty k _ _ ∙ recv-frame t d (arrivals c xs later)
  recv-arrival (pinged k b) xs later = recv-after_empty k (ping b) (arrivals c xs later)
  recv-arrival (ponged k b) xs later = recv-after_empty k (pong b) (arrivals c xs later)

  collected :
      (xs : List Arrival) (later : List Item)
      → collect c (length xs) (arrivals c xs later) ≡ map got xs
  collected [] later = refl
  collected (a ∷ xs) later =
      ap (λ r. r.0 ∷ collect c (length xs) r.1) (recv-arrival a xs later)
      ∙ ap (λ rs. got a ∷ rs) (collected xs later)

  written_all :
      (fs : List (Text × Json)) (incoming : List Item) (out : List WsMessage)
      → send_all c fs (record { incoming = incoming; outgoing = out; writable = true }) ≡ (
        true,
        record { incoming = incoming; outgoing = out ++ map (frame_of c) fs; writable = true },
      )
  unfolding send encode
  written_all [] incoming out = λ i.
      (true, record { incoming = incoming; outgoing = sym (append-nil out) i; writable = true })
  written_all ((t, d) ∷ fs) incoming out =
      let m = frame_of c (t, d) in
      written_all fs incoming (out ++ m ∷ []) ∙ (λ i. (
        true,
        record {
          incoming = incoming;
          outgoing = append_assoc out (m ∷ []) (map (frame_of c) fs) i;
          writable = true;
        },
      ))

  -- Frames that one end sends on a writable connection arrive, with any control messages and empty
  -- messages between them, as the very frames in their order, and each control message is told as a
  -- keepalive: if the JSON codec reads back what it writes, which is never nothing.
  pub collect-send_all :
      (xs : List Arrival) (later : List Item) (s : Socket)
      → s.writable ≡ true
      → ((send_all c (frames_of xs) s).0 ≡ true)
        × ((send_all c (frames_of xs) s).1.outgoing ≡ s.outgoing ++ map (frame_of c) (frames_of xs))
        × (collect c (length xs) (arrivals c xs later) ≡ map got xs)
  collect-send_all xs later s can =
      let sent =
        ap (λ b. send_all c (frames_of xs) (record s { writable = b })) can
        ∙ written_all (frames_of xs) s.incoming s.outgoing in
      (ap (λ r. r.0) sent, ap (λ r. r.1.outgoing) sent, collected xs later)
