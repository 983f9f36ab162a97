-- ===== src/Agent/CommandLine/Options.antt =====
-- The options of the command line and the agent that they reach.
use copysync.Prelude.{
  ℕ, suc, ◌≡◌, refl, ap, ◌∙◌, Bool, true, false, ◌||◌, Option, none, some, List, [], ◌∷◌, Text,
  codes, text_eq, text_eq_iff, arith, if◌then◌else◌,
}
use copysync.World.{Crates}
use copysync.Ipc.{Request, Outbound, pair}
use copysync.Agent.Requests.{Agent, Answers, handle_request, process_line}
use copysync.Agent.Connection.{on_line, on_wake, write_lines}
use copysync.Agent.CommandLine.{
  flag, server_flag, otp_flag, name_flag, pin_flag, e2e_flag, unwrap_or, pair_request, pair_args,
  command, invocation, Invocation, serve, watch, client, missing, usage, Ending, printed, refused,
  client_send, perform, run_main,
}

-- Options as pairs of a name and a value, and as arguments.
abbrev pub spread : List (Text × Text) → List Text
spread [] = []
spread ((k, v) ∷ opts) = k ∷ v ∷ spread opts

abbrev pub is_flag : Text → Bool
is_flag t =
    text_eq t server_flag
    || text_eq t otp_flag
    || text_eq t name_flag
    || text_eq t pin_flag
    || text_eq t e2e_flag

-- No value is spelled like one of the flags.
abbrev pub Plain : List (Text × Text) → Type 0
Plain [] = Unit {0}
Plain ((k, v) ∷ opts) = (is_flag v ≡ false) × Plain opts

abbrev pub option_of : Text → List (Text × Text) → Option Text
option_of name [] = none
option_of name ((k, v) ∷ opts) = if text_eq k name then some v else option_of name opts

flag-spread :
    (name : Text) (opts : List (Text × Text))
    → is_flag name ≡ true
    → Plain opts
    → flag (spread opts) name ≡ option_of name opts
unfolding flag
flag-spread name [] h plain = refl
flag-spread name ((k, v) ∷ opts) h (p, plain) =
    ground (arith, flag-spread name opts h plain, text_eq_iff v name)

abbrev pub given : Option Text → Text → Text
given none default = default
given (some v) default = v

-- What the options ask for, in words of their own: the two that are needed, and the request.
abbrev pub asked_with : Option Text → Option Text → List (Text × Text) → Invocation
asked_with none otp opts = missing (codes "--server")
asked_with (some server) none opts = missing (codes "--otp")
asked_with (some server) (some otp) opts = client (
    pair (record {
      server = server;
      otp = otp;
      name = given (option_of (codes "--name") opts) (codes "desktop");
      pin = given (option_of (codes "--pin") opts) [];
      e2e_pass = given (option_of (codes "--e2e") opts) [];
    }))

abbrev pub asked : List (Text × Text) → Invocation
asked opts = asked_with (option_of (codes "--server") opts) (option_of (codes "--otp") opts) opts

given-unwrap_or : (o : Option Text) (d : Text) → unwrap_or o d ≡ given o d
given-unwrap_or none d = refl
given-unwrap_or (some v) d = refl

pair_request-asked_with :
    (server otp : Option Text) (opts : List (Text × Text))
    → pair_request server otp
        (option_of name_flag opts)
        (option_of pin_flag opts)
        (option_of e2e_flag opts)
      ≡ asked_with server otp opts
pair_request-asked_with none otp opts = refl
pair_request-asked_with (some server) none opts = refl
pair_request-asked_with (some server) (some otp) opts = λ i. client (
    pair (record {
      server = server;
      otp = otp;
      name = given-unwrap_or (option_of name_flag opts) (codes "desktop") i;
      pin = given-unwrap_or (option_of pin_flag opts) [] i;
      e2e_pass = given-unwrap_or (option_of e2e_flag opts) [] i;
    }))

pair_args-spread : (opts : List (Text × Text)) → Plain opts → pair_args (spread opts) ≡ asked opts
unfolding pair_args text_eq
pair_args-spread opts plain =
    rw
      (
        flag-spread server_flag opts refl plain,
        flag-spread otp_flag opts refl plain,
        flag-spread name_flag opts refl plain,
        flag-spread pin_flag opts refl plain,
        flag-spread e2e_flag opts refl plain,
      )
      (pair_request-asked_with (option_of server_flag opts) (option_of otp_flag opts) opts)

module _ (w : Crates) (o : Answers) (room : ℕ) where
  -- The first line of a connection answers its first request.
  client_send-reply :
      (r : Request) (a : Agent)
      → client_send w o true (suc room) r a
        ≡ (printed (some (Outbound.reply (handle_request w o r a).0)), (handle_request w o r a).1)
  unfolding client_send on_wake on_line write_lines process_line
  client_send-reply r a = ground arith

  -- What the arguments ask of the agent that listens.
  abbrev pub answered : Invocation → Agent → Ending × Agent
  answered (client r) a =
      (printed (some (Outbound.reply (handle_request w o r a).0)), (handle_request w o r a).1)
  answered (missing f) a = (refused f, a)
  answered i a = perform w o true (suc room) i a

  perform-answered : (i : Invocation) (a : Agent) → perform w o true (suc room) i a ≡ answered i a
  unfolding perform
  perform-answered serve a = refl
  perform-answered watch a = refl
  perform-answered (client r) a = client_send-reply r a
  perform-answered (missing f) a = refl
  perform-answered (usage c) a = refl

  -- The command line `pair` with any options in any order, of which no value is spelled like a
  -- flag: the first that is missing of server and one-time password is named, and the agent left
  -- alone; or the agent that listens handles just the request with the values given, the name
  -- `desktop` and blanks being the defaults, and its reply is printed.
  pub run_main-pair :
      (program : Text) (opts : List (Text × Text)) (a : Agent)
      → Plain opts
      → run_main w o true (suc room) (program ∷ codes "pair" ∷ spread opts) a
        ≡ answered (asked opts) a
  unfolding run_main invocation command text_eq
  run_main-pair program opts a plain =
      ap (λ i. perform w o true (suc room) i a) (pair_args-spread opts plain)
      ∙ perform-answered (asked opts) a
