-- ===== src/Tests/Wires.antt =====
-- The control channel with its codec, pairing, discovery and the names of virtual files.
use copysync.Prelude.{
  all, arith, ◌≡◌, refl, true, false, Option, none, some, List, [], ◌∷◌, ◌++◌, map, Text, codes,
  text_eq, replicate, member, Distinct, is_empty,
}
use copysync.Prelude.Int.{pos}
use copysync.World.{Crates, toy}
use copysync.Privacy.Chars.{trim}
use copysync.Protocol.{HelloOk}
use copysync.Pairing.{Net, tls, claim}
use copysync.Pairing.Pinned.{Pinned, claim-Pinned}
use copysync.Clipboard.{virtual_file_names}
use copysync.Clipboard.VirtualNames.{Desc, group, virtual_file_names-group}
use copysync.Discovery.{Found, Tick, discover}
use copysync.Discovery.Once.{urls, offered, discover-Distinct}
use copysync.Protocol.Json.{null, num, as_str}
use copysync.Ws.{
  envelope, binary, ping, message, failed, Socket, up, hello, to_ws_url, send, connect, welcome,
  into_data, decode, in_envelope, visit_map, encode, await_hello,
}
use copysync.Ws.Handshake.{Welcomed, connect-up}
use copysync.Ws.Stream.{
  Arrival, sent, pinged, send_all, collect, frame_of, frames_of, arrivals, got, collect-send_all,
}
use copysync.Tests.Codec.{push, codec, codec-SerdeLaws}
use copysync.Tests.Values.{device}

abbrev welcome_data : HelloOk
welcome_data = record {
  server_id = codes "s";
  server_name = codes "host";
  e2e = true;
  you = device (codes "desk");
  roster = [];
  max_msg = pos 1000;
  blob_cap = pos 0;
  on_demand_threshold = pos 1;
  pools = [];
  pool = [];
}

abbrev socket : Socket
socket = record {
  incoming =
      message (frame_of (codec welcome_data) (codes "hello_ok", null)) ∷ message (ping []) ∷ [];
  outgoing = [];
  writable = true;
}

-- Two frames with a ping and an empty message between them.
abbrev pieces : List Arrival
pieces = sent 0 (codes "clip", num 7) ∷ pinged 0 [] ∷ sent 1 (codes "ack", null) ∷ []

collect-send_all_example :
    let c = codec welcome_data in
    ((send_all c (frames_of pieces) socket).0 ≡ true)
    × ((send_all c (frames_of pieces) socket).1.outgoing ≡ map (frame_of c) (frames_of pieces))
    × (collect c 3 (arrivals c pieces (failed [] ∷ [])) ≡ map got pieces)
collect-send_all_example =
    collect-send_all (codec welcome_data) (codec-SerdeLaws welcome_data) pieces (failed [] ∷ [])
      socket refl

-- The pin of a key in base64, which the toy crates take for the bytes themselves.
abbrev pin : Text
pin = replicate 32 b'1'

abbrev crates : Crates
crates = record toy { sha256 = λ b. replicate 32 b'1' }

abbrev host : Text
host = codes "https://h/"

abbrev dialled : Text → Option Socket
dialled url = some socket

abbrev connected : Socket
connected = record {
  incoming = message (ping []) ∷ [];
  outgoing =
      binary (
        (codec welcome_data).to_vec
          (envelope (codes "hello") (hello (codes "d") (codes "desk") (codes "t"))))
      ∷ [];
  writable = true;
}

handshake :
    connect (codec welcome_data) dialled host (codes "d") (codes "desk") (codes "t")
    ≡ up connected welcome_data
unfolding connect send encode await_hello decode into_data push envelope in_envelope visit_map
    text_eq as_str welcome
handshake = refl

connect-up_example :
    let c = codec welcome_data in
    let hi = hello (codes "d") (codes "desk") (codes "t") in
    (s : Socket) × (dialled (to_ws_url host) ≡ some s)
    × (binary (c.to_vec (envelope (codes "hello") hi)) ∷ []
        ≡ s.outgoing ++ binary (c.to_vec (envelope (codes "hello") hi)) ∷ [])
    × Welcomed c s.incoming welcome_data (message (ping []) ∷ [])
connect-up_example =
    connect-up (codec welcome_data) dialled host (codes "d") (codes "desk") (codes "t") connected
      welcome_data handshake

-- A server that shows a key, and answers a claim.
abbrev net : Net
net = record {
  serverinfo = λ url. some pin;
  scheme = λ url. tls;
  spki = some (7 ∷ []);
  answer = λ url body. some (200, []);
  parses = λ text. some (record {
    device_id = codes "d";
    token = codes "t";
    server_id = codes "s";
    server_name = codes "host";
  });
}

claim-Pinned_example :
    Pinned crates net
      (is_empty (trim pin))
      host
      pin
      (record { otp = codes "123456"; device_name = codes "desk"; platform = codes "linux" })
      (claim crates net host pin (codes "123456") (codes "desk") [])
claim-Pinned_example = claim-Pinned crates net host pin (codes "123456") (codes "desk") [] refl

abbrev ticks : List Tick
ticks =
    Tick.resolved (record {
      name = none;
      hostname = codes "nas.local.";
      port = codes "8443";
      addresses = (true, codes "10.0.0.2") ∷ (false, codes "::1") ∷ (true, codes "10.0.0.2") ∷ [];
    })
    ∷ Tick.other
    ∷ []

discover-Distinct_example :
    (found : List Found) × (discover true ticks ≡ some found)
    × Distinct (urls found)
    × ((u : Text) → member u (urls found) ≡ member u (offered ticks))
discover-Distinct_example = discover-Distinct ticks

-- A descriptor of a file with a Korean letter and an emoji in its name, whose units are a pair.
abbrev desc : Desc
desc = record { header = replicate 72 9; name = codes "한😀"; padding = replicate 512 9 }

virtual_file_names-group_example :
    virtual_file_names (group (desc ∷ []) (7 ∷ [])) ≡ some (codes "한😀" ∷ [])
unfolding all
virtual_file_names-group_example =
    virtual_file_names-group desc [] (7 ∷ []) ((refl, refl, refl, omega arith, refl), tt)
      (omega arith)
