-- ===== src/Agent/CommandLine.antt =====
-- The process of clients/desktop/agent/src/main.rs: `main` with `flag`, and the one request that
-- `client_send` makes of the agent that listens. A line of the socket is the value that it encodes.
pub mod Options
use copysync.Prelude.{
  ℕ, Bool, true, false, Option, none, some, List, [], ◌∷◌, ◌++◌, Text, codes, first, text_eq,
  if◌then◌else◌,
}
use copysync.World.{Crates}
use copysync.Ipc
use copysync.Ipc.{
  Request, Outbound, get_status, get_history, discover_servers, reconnect, subscribe, send_text,
  pair,
}
use copysync.Agent.Requests.{Agent, Answers, Input}
use copysync.Agent.Connection.{accepted, line, on_wake}

-- `flag`: the argument after the first one that is the name.
unfoldable pub flag : List Text → Text → Option Text
flag [] name = none
flag (a ∷ args) name = if text_eq a name then first args else flag args name

-- `r.join(" ")`
unfoldable pub join_spaces : List Text → Text
join_spaces [] = []
join_spaces (a ∷ []) = a
join_spaces (a ∷ b ∷ args) = a ++ b' ' ∷ join_spaces (b ∷ args)

abbrev pub unwrap_or : Option Text → Text → Text
unwrap_or none d = d
unwrap_or (some t) d = t

-- What the arguments ask for: the daemon, one request, the event feed, or an error with the flag
-- that is missing or the command that is not known.
pub data Invocation : Type 0 where
  serve watch : Invocation
  client : Request → Invocation
  missing usage : Text → Invocation

abbrev pub server_flag : Text
server_flag = codes "--server"

abbrev pub otp_flag : Text
otp_flag = codes "--otp"

abbrev pub name_flag : Text
name_flag = codes "--name"

abbrev pub pin_flag : Text
pin_flag = codes "--pin"

abbrev pub e2e_flag : Text
e2e_flag = codes "--e2e"

-- `Request::Pair` of the two flags that are needed and the three that are not.
abbrev pub pair_request :
    Option Text → Option Text → Option Text → Option Text → Option Text → Invocation
pair_request none otp name pin e2e = missing server_flag
pair_request (some server) none name pin e2e = missing otp_flag
pair_request (some server) (some otp) name pin e2e = client (
    pair (record {
      server = server;
      otp = otp;
      name = unwrap_or name (codes "desktop");
      pin = unwrap_or pin [];
      e2e_pass = unwrap_or e2e [];
    }))

unfoldable pub pair_args : List Text → Invocation
pair_args r =
    pair_request (flag r server_flag) (flag r otp_flag) (flag r name_flag) (flag r pin_flag)
      (flag r e2e_flag)

unfoldable pub command : Text → List Text → Invocation
command c r =
    if text_eq c (codes "serve")
    then serve
    else if text_eq c (codes "ping")
    then client get_status
    else if text_eq c (codes "status")
    then client get_status
    else if text_eq c (codes "history")
    then client (get_history none)
    else if text_eq c (codes "discover")
    then client discover_servers
    else if text_eq c (codes "reconnect")
    then client reconnect
    else if text_eq c (codes "watch")
    then watch
    else if text_eq c (codes "send")
    then client (send_text (join_spaces r))
    else if text_eq c (codes "pair")
    then pair_args r
    else usage c

-- The arguments, that of the program's name included.
unfoldable pub invocation : List Text → Invocation
invocation [] = serve
invocation (program ∷ []) = serve
invocation (program ∷ c ∷ r) = command c r

-- How the process ends, with what it has printed; `none` is the blank line after an end of file.
pub data Ending : Type 0 where
  served : Ending
  printed : Option Outbound → Ending
  streamed : List Outbound → Ending
  unreachable : Ending
  refused : Text → Ending
  exited_2 : Text → Ending

module _ (w : Crates) where
  -- The request on a new connection of the agent, and the first line that comes back.
  unfoldable pub client_send : Answers → Bool → ℕ → Request → Agent → Ending × Agent
  client_send o listening room r a =
      let (c, a1) = on_wake w o room (line (Input.request r)) accepted a in
      if listening then (printed (first c.written), a1) else (unreachable, a)

  -- The lines that the subscription has written so far.
  unfoldable pub client_watch : Answers → Bool → ℕ → Agent → Ending × Agent
  client_watch o listening room a =
      let (c, a1) = on_wake w o room (line (Input.request subscribe)) accepted a in
      if listening then (streamed c.written, a1) else (unreachable, a)

  unfoldable pub perform : Answers → Bool → ℕ → Invocation → Agent → Ending × Agent
  perform o listening room serve a = (served, a)
  perform o listening room watch a = client_watch o listening room a
  perform o listening room (client r) a = client_send o listening room r a
  perform o listening room (missing f) a = (refused f, a)
  perform o listening room (usage c) a = (exited_2 c, a)

  unfoldable pub run_main : Answers → Bool → ℕ → List Text → Agent → Ending × Agent
  run_main o listening room args a = perform o listening room (invocation args) a
