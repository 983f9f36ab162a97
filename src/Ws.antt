-- ===== src/Ws.antt =====
-- clients/desktop/core/src/ws.rs, with `encode` and `decode` of clients/desktop/core/src/lib.rs:
-- the frames of the control channel and the handshake. The JSON codec and the socket are arguments.
pub mod Handshake
pub mod Stream
use copysync.Prelude.{
  trim_end_matches, ℕ, ◌≡◌, Bool, true, false, Option, none, some, List, [], ◌∷◌, ◌++◌, Text, Bytes,
  codes, is_empty, all, ◌==◌, text_eq, strip_prefix, if◌then◌else◌,
}
use copysync.Protocol.{HelloOk}
use copysync.Protocol.Json.{
  Json, null, num, str, arr, obj, Items, nil, cons, Fields, end, field, as_str,
}

-- serde_json, whose values have an object's key once but keep the fields of a frame as they stand,
-- and the derived code for the two answers to a hello.
pub record Serde : Type 0 where
  pub to_vec : Json → Bytes
  pub from_slice : Bytes → Option Json
  pub hello_ok : Json → Option HelloOk
  pub hello_err : Json → Option (Text × Text)

-- What is written is read back, and is not nothing.
pub record SerdeLaws (c : Serde) : Type 0 where
  pub from_slice-to_vec : (j : Json) → c.from_slice (c.to_vec j) ≡ some j
  pub is_empty-to_vec : (j : Json) → is_empty (c.to_vec j) ≡ false

-- `OutEnvelope`
unfoldable pub envelope : Text → Json → Json
envelope t d = obj (field (codes "t") (str t) (field (codes "d") d end))

abbrev pub or_null : Option Json → Json
or_null none = null
or_null (some d) = d

-- A field that comes once.
abbrev once {ℓ} : {A : Type ℓ} → Option A → Option A → Option A
once none a = a
once (some b) a = none

abbrev tagged : Option Text → Option Json → Option (Text × Json)
tagged none d = none
tagged (some t) d = some (t, or_null d)

-- The derived visitor of `InEnvelope`: the fields of an object, of which unknown ones are skipped.
unfoldable pub visit_map : Fields → Option Text → Option Json → Option (Text × Json)
visit_map end t d = tagged t d
visit_map (field k v rest) t d =
    let tag = once t (as_str v) in
    let payload = once d (some v) in
    let with_tag = visit_map rest tag d in
    let with_payload = visit_map rest t payload in
    let skipped = visit_map rest t d in
    if text_eq k (codes "t")
    then elim tag [ none ↦ none | some s ↦ with_tag ]
    else if text_eq k (codes "d")
    then elim payload [ none ↦ none | some j ↦ with_payload ]
    else skipped

-- An array stands for the two fields in order.
unfoldable pub in_envelope : Json → Option (Text × Json)
in_envelope (obj fields) = visit_map fields none none
in_envelope (arr (cons (str t) nil)) = some (t, null)
in_envelope (arr (cons (str t) (cons d nil))) = some (t, d)
in_envelope _ = none

-- `https://` becomes `wss://` and `http://` `ws://`, at the first place each.
unfoldable pub replace_first : Text → Text → Text → Text
replace_first from to [] = []
replace_first from to (c ∷ t) = elim (strip_prefix (c ∷ t) from) [
  | none ↦ c ∷ replace_first from to t
  | some rest ↦ to ++ rest
]

unfoldable pub to_ws_url : Text → Text
unfolding replace_first
to_ws_url base =
    let wss = replace_first (codes "https://") (codes "wss://") (trim_end_matches b'/' base) in
    replace_first (codes "http://") (codes "ws://") wss ++ codes "/ws"

-- A message of the crate tungstenite, and what the stream of them yields.
pub data WsMessage : Type 0 where
  text binary ping pong close : Bytes → WsMessage

pub data Item : Type 0 where
  message : WsMessage → Item
  failed : Text → Item

unfoldable pub into_data : WsMessage → Bytes
into_data (text b) = b
into_data (binary b) = b
into_data (ping b) = b
into_data (pong b) = b
into_data (close b) = b

-- What `recv` yields: the end, a frame, one that does not decode, or an error of the socket.
pub data Received : Type 0 where
  eof : Received
  frame : Text → Json → Received
  undecodable : Received
  broken : Text → Received

abbrev pub keepalive_tag : Text
keepalive_tag = 0 ∷ codes "keepalive"

-- What comes in and what has been written; a write may fail.
pub record Socket : Type 0 where
  pub incoming : List Item
  pub outgoing : List WsMessage
  pub writable : Bool

-- Why there is no connection.
pub data Refusal : Type 0 where
  not_dialled not_written closed_early not_a_frame bad_hello : Refusal
  rejected : Text → Text → Refusal
  unexpected : Text → Refusal

pub data Connected : Type 0 where
  up : Socket → HelloOk → Connected
  down : Refusal → Connected

-- `PROTO`
abbrev pub proto : ℕ
proto = 1

-- The fields of `Hello`.
abbrev pub hello : Text → Text → Text → Json
hello device_id device_name token =
    let rest =
      field (codes "platform") (str (codes "linux")) (field (codes "proto") (num proto) end) in
    obj (
      field (codes "deviceId") (str device_id)
        (field (codes "deviceName") (str device_name) (field (codes "token") (str token) rest)))

abbrev pub received : Option (Text × Json) → Received
received none = undecodable
received (some (t, d)) = frame t d

abbrev pub accepted : Option HelloOk → Socket → Connected
accepted none s = down bad_hello
accepted (some h) s = up s h

-- `unwrap_or_default` of the reason.
abbrev pub refused : Option (Text × Text) → Refusal
refused none = rejected [] []
refused (some (code, why)) = rejected code why

module _ (c : Serde) where
  -- A payload that does not serialize makes no frame.
  unfoldable pub encode : Text → Option Json → Option Bytes
  encode t none = none
  encode t (some d) = some (c.to_vec (envelope t d))

  unfoldable pub decode : Bytes → Option (Text × Json)
  decode bytes = elim (c.from_slice bytes) [ none ↦ none | some j ↦ in_envelope j ]

  abbrev written : Option Bytes → Socket → Bool × Socket
  written none s = (false, s)
  written (some b) s =
      if s.writable then (true, record s { outgoing = s.outgoing ++ binary b ∷ [] }) else (false, s)

  unfoldable pub send : Text → Option Json → Socket → Bool × Socket
  send t d s = written (encode t d) s

  unfoldable pub recv : List Item → Received × List Item
  recv [] = (eof, [])
  recv (failed why ∷ rest) = (broken why, rest)
  recv (message (close b) ∷ rest) = (eof, rest)
  recv (message (ping b) ∷ rest) = (frame keepalive_tag null, rest)
  recv (message (pong b) ∷ rest) = (frame keepalive_tag null, rest)
  recv (message (text b) ∷ rest) =
      let later = recv rest in if is_empty b then later else (received (decode b), rest)
  recv (message (binary b) ∷ rest) =
      let later = recv rest in if is_empty b then later else (received (decode b), rest)

  -- The first answer to the hello.
  unfoldable pub welcome : Text → Json → Socket → Connected
  welcome t d s =
      if text_eq t (codes "hello_ok")
      then accepted (c.hello_ok d) s
      else if text_eq t (codes "hello_err")
      then down (refused (c.hello_err d))
      else down (unexpected t)

  abbrev pub greeted : Option (Text × Json) → Socket → Connected
  greeted none s = down not_a_frame
  greeted (some (t, d)) s = welcome t d s

  abbrev pub first_of : List Item → Socket → Connected
  first_of [] s = down closed_early
  first_of (failed why ∷ rest) s = down closed_early
  first_of (message m ∷ rest) s = greeted (decode (into_data m)) (record s { incoming = rest })

  -- Whatever message comes first is taken for the answer.
  unfoldable pub await_hello : Socket → Connected
  await_hello s = first_of s.incoming s

  -- The hello, and what the server says to it.
  abbrev pub shake : Json → Option Socket → Connected
  shake hi none = down not_dialled
  shake hi (some s) =
      let (sent, s1) = send (codes "hello") (some hi) s in
      if sent then await_hello s1 else down not_written

  -- The socket that the dialling gives, if any.
  unfoldable pub connect : (Text → Option Socket) → Text → Text → Text → Text → Connected
  connect dial base device_id device_name token =
      shake (hello device_id device_name token) (dial (to_ws_url base))
