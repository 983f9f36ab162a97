-- ===== src/Pairing/Pinned.antt =====
-- To whom the one-time password goes.
use copysync.Prelude.{
  trim_end_matches, ℕ, ◌≡◌, refl, subst, sym, ap, ◌∙◌, ◌⊎◌, inl, inr, Bool, true, false, Option,
  none, some, List, [], ◌∷◌, ◌++◌, Text, Bytes, codes, is_empty, text_eq, text_eq_iff, Bool-cases,
  if◌then◌else◌,
}
use mathlib.Core.Option.{some-injective}
use copysync.Privacy.Chars.{trim}
use copysync.World.{Crates}
use copysync.Config.{Config, decode_pin}
use copysync.Pairing.{
  Verdict, trusted, not_a_cert, mismatch, verify_server_cert, ClaimResp, Claim, tls, Net, Sent,
  claim_body, info_asked, claim_sent, Outcome, paired, failed, new_config, parsed, taken,
  is_success, post, post_by, redeem, claim_with, claim,
}

-- A pairing that succeeds keeps the pin.
abbrev pub Keeps : Text → Outcome → Type 0
Keeps p (paired cfg) = cfg.pin ≡ p
Keeps p (failed f) = Unit {0}

abbrev pub IsFailed : Outcome → Type 0
IsFailed (paired cfg) = ⊥
IsFailed (failed f) = Unit {0}

differs : mismatch ≡ trusted → ⊥
differs e = cc

verify-trusted :
    (w : Crates) (pin : Bytes) (o : Option Bytes)
    → verify_server_cert w pin o ≡ trusted
    → (spki : Bytes) × (o ≡ some spki) × (pin ≡ w.sha256 spki)
unfolding verify_server_cert
verify-trusted w pin none is = cc
verify-trusted w pin (some spki) is = elim (Bool-cases (text_eq (w.sha256 spki) pin)) [
  | inl same ↦ (spki, refl, sym ((text_eq_iff (w.sha256 spki) pin).0 same))
  | inr other ↦ absurd (differs (sym (ap (λ b. if b then trusted else mismatch) other) ∙ is))
]

Keeps-if :
    (b : Bool) (p : Text) (o q : Outcome) → Keeps p o → Keeps p q → Keeps p (if b then o else q)
Keeps-if true p o q h k = h
Keeps-if false p o q h k = k

module _ (w : Crates) (n : Net) where
  Keeps-parsed :
      (p : Text) (make : ClaimResp → Config) (r : Option ClaimResp)
      → ((r : ClaimResp) → (make r).pin ≡ p)
      → Keeps p (parsed make r)
  Keeps-parsed p make none same = tt
  Keeps-parsed p make (some r) same = same r

  Keeps-taken :
      (p : Text) (make : ClaimResp → Config) (a : Option (ℕ × Text))
      → ((r : ClaimResp) → (make r).pin ≡ p)
      → Keeps p (taken w n make a)
  Keeps-taken p make none same = tt
  Keeps-taken p make (some (status, text)) same =
      Keeps-if (is_success status) p _ _ (Keeps-parsed p make (n.parses text) same) tt

  -- Nothing went out, or the claim did, to a server that has the key of the pin `p`.
  abbrev Redeemed : Option Text → Text → Claim → List Sent × Outcome → Type 0
  Redeemed o url body t =
      ((t.0 ≡ []) × IsFailed t.1)
      ⊎ ((p : Text) × (spki : Bytes) × (o ≡ some p)
          × (n.spki ≡ some spki)
          × (decode_pin w p ≡ some (w.sha256 spki))
          × (t.0 ≡ claim_sent tls url body ∷ [])
          × Keeps p t.1)

  post-Redeemed :
      (v : Verdict) (pin : Bytes) (p url : Text) (make : ClaimResp → Config) (body : Claim)
      → verify_server_cert w pin n.spki ≡ v
      → decode_pin w p ≡ some pin
      → ((r : ClaimResp) → (make r).pin ≡ p)
      → Redeemed (some p) url body (post w n v make url body)
  post-Redeemed not_a_cert pin p url make body is decoded same = inl (refl, tt)
  post-Redeemed mismatch pin p url make body is decoded same = inl (refl, tt)
  post-Redeemed trusted pin p url make body is decoded same =
      let (spki, shown, fits) = verify-trusted w pin n.spki is in
      inr (
        p,
        spki,
        refl,
        shown,
        decoded ∙ ap some fits,
        refl,
        Keeps-taken p make (n.answer url body) same,
      )

  redeem-Redeemed :
      (d : Option Bytes) (p url : Text) (make : ClaimResp → Config) (body : Claim)
      → n.scheme url ≡ tls
      → decode_pin w p ≡ d
      → ((r : ClaimResp) → (make r).pin ≡ p)
      → Redeemed (some p) url body (redeem w n d make url body)
  redeem-Redeemed none p url make body secure is same = inl (refl, tt)
  redeem-Redeemed (some pin) p url make body secure is same =
      subst (λ c. Redeemed (some p) url body (post_by w n c pin make url body)) (sym secure)
        (post-Redeemed (verify_server_cert w pin n.spki) pin p url make body refl is same)

  claim_with-Redeemed :
      (o : Option Text) (base : Text) (body : Claim) (e2e_pass : Text)
      → n.scheme (trim_end_matches b'/' base ++ codes "/pair/claim") ≡ tls
      → Redeemed o
          (trim_end_matches b'/' base ++ codes "/pair/claim")
          body
          (claim_with w n o base body e2e_pass)
  unfolding claim_with new_config
  claim_with-Redeemed none base body e2e_pass secure = inl (refl, tt)
  claim_with-Redeemed (some p) base body e2e_pass secure =
      redeem-Redeemed (decode_pin w p) p _ (new_config base p body.device_name e2e_pass) body secure
        refl (λ r. refl)

  -- The pin that is used: the one that was given, or else the one that the server tells.
  abbrev pub Chosen : Text → Text → Text → Type 0
  Chosen base pin p =
      ((is_empty (trim pin) ≡ false) × (p ≡ trim pin))
      ⊎ ((is_empty (trim pin) ≡ true)
          × (n.serverinfo (trim_end_matches b'/' base ++ codes "/pair/serverinfo") ≡ some p))

  abbrev pub asked : Bool → Text → List Sent
  asked true base = info_asked (trim_end_matches b'/' base ++ codes "/pair/serverinfo") ∷ []
  asked false base = []

  -- What a pairing does: nothing but perhaps the question for the pin, and it fails; or the claim
  -- went to a server whose key has the digest of the pin.
  abbrev pub Pinned : Bool → Text → Text → Claim → List Sent × Outcome → Type 0
  Pinned ask base pin body t =
      ((t.0 ≡ asked ask base) × IsFailed t.1)
      ⊎ ((p : Text) × (spki : Bytes) × Chosen base pin p
          × (n.spki ≡ some spki)
          × (decode_pin w p ≡ some (w.sha256 spki))
          × (t.0
              ≡ asked ask base
                ++ claim_sent tls (trim_end_matches b'/' base ++ codes "/pair/claim") body ∷ [])
          × Keeps p t.1)

  Pinned-if :
      (blank : Bool) (base pin : Text) (body : Claim) (told given : List Sent × Outcome)
      → is_empty (trim pin) ≡ blank
      → Redeemed
          (n.serverinfo (trim_end_matches b'/' base ++ codes "/pair/serverinfo"))
          (trim_end_matches b'/' base ++ codes "/pair/claim")
          body
          told
      → Redeemed (some (trim pin)) (trim_end_matches b'/' base ++ codes "/pair/claim") body given
      → Pinned blank base pin body (
          if blank
          then (
            info_asked (trim_end_matches b'/' base ++ codes "/pair/serverinfo") ∷ told.0,
            told.1,
          )
          else given)
  Pinned-if true base pin body told given is t g = elim t [
    | inl (none_sent, fails) ↦ inl (
      ap (λ l. info_asked (trim_end_matches b'/' base ++ codes "/pair/serverinfo") ∷ l) none_sent,
      fails,
    )
    | inr (p, spki, of, shown, fits, sent, keeps) ↦ inr (
      p,
      spki,
      inr (is, of),
      shown,
      fits,
      ap (λ l. info_asked (trim_end_matches b'/' base ++ codes "/pair/serverinfo") ∷ l) sent,
      keeps,
    )
  ]
  Pinned-if false base pin body told given is t g = elim g [
    | inl (none_sent, fails) ↦ inl (none_sent, fails)
    | inr (p, spki, of, shown, fits, sent, keeps) ↦
        inr (p, spki, inl (is, sym (some-injective _ _ of)), shown, fits, sent, keeps)
  ]

  -- Where the address of the claim is one of TLS, and the server does not redirect the HTTP client,
  -- the one-time password only ever goes to a server whose key has the digest of a pin: that which
  -- the user gave, and then nothing else goes out and no server is asked for one; or, where none was
  -- given, that which the server told. A configuration that the pairing gives keeps this pin. Where
  -- the password does not go out the pairing fails.
  pub claim-Pinned :
      (base pin otp device_name e2e_pass : Text)
      → n.scheme (trim_end_matches b'/' base ++ codes "/pair/claim") ≡ tls
      → Pinned
          (is_empty (trim pin))
          base
          pin
          (claim_body w n otp device_name)
          (claim w n base pin otp device_name e2e_pass)
  unfolding claim
  claim-Pinned base pin otp device_name e2e_pass secure =
      let body = claim_body w n otp device_name in
      Pinned-if (is_empty (trim pin)) base pin body _ _ refl
        (claim_with-Redeemed _ base body e2e_pass secure)
        (claim_with-Redeemed _ base body e2e_pass secure)
