-- ===== src/Pairing.antt =====
-- clients/desktop/core/src/pairing.rs, with the check of a certificate by `SpkiPinVerifier` of
-- clients/desktop/core/src/pinning.rs. What the network answers is an argument; a redirect
-- that the HTTP client follows by itself is not modelled.
pub mod Pinned
use copysync.Prelude.{
  trim_end_matches, ℕ, ◌≡◌, Bool, true, false, ◌&&◌, Option, none, some, List, [], ◌∷◌, ◌++◌, Text,
  Bytes, codes, is_empty, leb, text_eq, if◌then◌else◌,
}
use copysync.Privacy.Chars.{trim}
use copysync.World.{Crates}
use copysync.Config.{Config, decode_pin}

-- `Ok`, or the two errors.
pub data Verdict : Type 0 where
  trusted not_a_cert mismatch : Verdict

-- The key of the certificate of the server, if that parses, against the pin.
unfoldable pub verify_server_cert : Crates → Bytes → Option Bytes → Verdict
verify_server_cert w pin none = not_a_cert
verify_server_cert w pin (some spki) = if text_eq (w.sha256 spki) pin then trusted else mismatch

-- `ClaimResp`
pub record ClaimResp : Type 0 where
  pub device_id : Text
  pub token : Text
  pub server_id : Text
  pub server_name : Text

-- The body of the request.
pub record Claim : Type 0 where
  pub otp : Text
  pub device_name : Text
  pub platform : Text

-- How the HTTP client goes to a URL: with TLS (`https`), in the clear (`http`), or not at all.
pub data Scheme : Type 0 where
  tls clear unsupported : Scheme

-- What the pin of `/pair/serverinfo` is, when the server tells; the key that it shows on the pinned
-- connection; what it answers there, a status and a text; and how a text parses.
pub record Net : Type 0 where
  pub serverinfo : Text → Option Text
  pub scheme : Text → Scheme
  pub spki : Option Bytes
  pub answer : Text → Claim → Option (ℕ × Text)
  pub parses : Text → Option ClaimResp

-- What goes out: the question without a pin, and the claim, with how it goes.
pub data Sent : Type 0 where
  info_asked : Text → Sent
  claim_sent : Scheme → Text → Claim → Sent

pub data Failure : Type 0 where
  no_info bad_pin no_scheme not_trusted no_answer bad_answer : Failure
  refused : ℕ → Text → Failure

pub data Outcome : Type 0 where
  paired : Config → Outcome
  failed : Failure → Outcome

-- `is_success` of a status.
abbrev pub is_success : ℕ → Bool
is_success status = leb 200 status && leb status 299

-- The configuration that a pairing gives.
unfoldable pub new_config : Text → Text → Text → Text → ClaimResp → Config
new_config base pin device_name e2e_pass r = record {
  server_url = trim_end_matches b'/' base;
  server_name = r.server_name;
  server_id = r.server_id;
  device_id = r.device_id;
  device_name = device_name;
  token = r.token;
  pin = pin;
  e2e_pass = e2e_pass;
  exclude_sensitive = true;
  sensitive_ttl_secs = 45;
  custom_patterns = [];
  quick_panel_shortcut = codes "CommandOrControl+Shift+KeyV";
  auto_clear_secs = 0;
  mark_received_sensitive = false;
  telemetry = true;
}

abbrev pub parsed : (ClaimResp → Config) → Option ClaimResp → Outcome
parsed make none = failed bad_answer
parsed make (some r) = paired (make r)

module _ (w : Crates) (n : Net) where
  abbrev pub taken : (ClaimResp → Config) → Option (ℕ × Text) → Outcome
  taken make none = failed no_answer
  taken make (some (status, text)) =
      if is_success status then parsed make (n.parses text) else failed (refused status (trim text))

  -- Over TLS the claim goes out once the handshake is done.
  abbrev pub post : Verdict → (ClaimResp → Config) → Text → Claim → List Sent × Outcome
  post trusted make url body = (claim_sent tls url body ∷ [], taken make (n.answer url body))
  post not_a_cert make url body = ([], failed not_trusted)
  post mismatch make url body = ([], failed not_trusted)

  -- The verifier of the pin is that of TLS: in the clear nothing is verified.
  abbrev pub post_by : Scheme → Bytes → (ClaimResp → Config) → Text → Claim → List Sent × Outcome
  post_by tls pin make url body = post (verify_server_cert w pin n.spki) make url body
  post_by clear pin make url body = (claim_sent clear url body ∷ [], taken make (n.answer url body))
  post_by unsupported pin make url body = ([], failed no_scheme)

  abbrev pub redeem : Option Bytes → (ClaimResp → Config) → Text → Claim → List Sent × Outcome
  redeem none make url body = ([], failed bad_pin)
  redeem (some pin) make url body = post_by (n.scheme url) pin make url body

  -- `claim` once there is a pin.
  unfoldable pub claim_with : Option Text → Text → Claim → Text → List Sent × Outcome
  claim_with none base body e2e_pass = ([], failed no_info)
  claim_with (some pin) base body e2e_pass =
      redeem (decode_pin w pin) (new_config base pin body.device_name e2e_pass)
        (trim_end_matches b'/' base ++ codes "/pair/claim") body

  abbrev pub claim_body : Text → Text → Claim
  claim_body otp device_name = record {
    otp = otp;
    device_name = device_name;
    platform = codes "linux";
  }

  unfoldable pub claim : Text → Text → Text → Text → Text → List Sent × Outcome
  claim base pin otp device_name e2e_pass =
      let body = claim_body otp device_name in
      let url = trim_end_matches b'/' base ++ codes "/pair/serverinfo" in
      let (sent, outcome) = claim_with (n.serverinfo url) base body e2e_pass in
      if is_empty (trim pin)
      then (info_asked url ∷ sent, outcome)
      else claim_with (some (trim pin)) base body e2e_pass
