-- ===== src/Mrtap/Agent/Greeting.antt =====
-- When the agent accepts a Syn, what it learns from it, and what a refused one leaves.
use bzero.Shared.{
  ℕ, false, Option, none, some, ◌≡◌, ◌⊎◌, refl, ◌∙◌, eq_iff, arith, Outcome, ok, err, panic,
}
use bzero.Mrtap.Types.{Bytes, BzCert, syn, SynPayload, syn_payload, Message}
use bzero.Mrtap.Externals.{Externals}
use bzero.Mrtap.Keypair
use bzero.Mrtap.Message
use bzero.Mrtap.Message.{invalid_signature}
use bzero.Mrtap.BzCert
use bzero.Mrtap.BzCert.{CertError}
use bzero.Mrtap.Agent.{
  Agent, validate, validate_syn, accept_cert, accept_version, as_agent, message_error,
}

module _ {V : Type 0} (x : Externals V) where
  abbrev pub IsSyn : Message → SynPayload → Type 0
  IsSyn msg p = (msg.type ≡ syn) × (msg.payload ≡ syn_payload p)

  -- What a Syn must satisfy, with what the agent learns from it.
  pub record Welcome (m : Agent V) (now : ℕ) (msg : Message) (p : SynPayload) : Type 0 where
    pub cert : BzCert
    pub key : Bytes
    pub version : V
    pub verified :
        BzCert.verify x m.idp_provider m.idp_org_id m.service_accounts now p.bz_cert ≡ ok cert
    pub keyed : Keypair.public_key_from_string x cert.client_public_key ≡ some key
    pub signed : Message.verify_signature x msg (some key) ≡ ok tt
    pub versioned : x.new_version p.schema_version ≡ some version
    pub targeted :
        (m.should_check_target_id version ≡ false)
        ⊎ (p.target_id ≡ Keypair.key_string x m.public_key)

  abbrev pub greeted : (m : Agent V) → BzCert → Bytes → V → Agent V
  greeted m cert key version = record m {
    client_bz_cert = some cert;
    client_public_key = some key;
    daemon_schema_version = some version;
  }

  validate-syn :
      (m : Agent V) (now : ℕ) (msg : Message) (p : SynPayload)
      → IsSyn msg p
      → validate x m now msg ≡ validate_syn x m now msg p
  unfolding validate
  validate-syn m now msg p (t, q) = rw (t, q)

  Welcome-ok :
      (m : Agent V) (now : ℕ) (msg : Message) (p : SynPayload) (w : Welcome m now msg p)
      → validate_syn x m now msg p ≡ (greeted m w.cert w.key w.version, ok tt)
  unfolding validate_syn accept_cert accept_version as_agent
  Welcome-ok m now msg p w = ground (
    arith,
    w.verified,
    w.keyed,
    w.signed,
    w.versioned,
    w.targeted,
    eq_iff p.target_id (Keypair.key_string x m.public_key),
  )

  -- Each step of the acceptance, as far as it was computed.
  ok-Welcome_version :
      (m : Agent V) (now : ℕ) (msg : Message) (p : SynPayload) (cert : BzCert) (key : Bytes)
      (version : Option V)
      → BzCert.verify x m.idp_provider m.idp_org_id m.service_accounts now p.bz_cert ≡ ok cert
      → Keypair.public_key_from_string x cert.client_public_key ≡ some key
      → x.new_version p.schema_version ≡ version
      → (validate_syn x m now msg p).1 ≡ ok tt
      → Welcome m now msg p
  unfolding validate_syn accept_cert accept_version as_agent
  ok-Welcome_version m now msg p cert key none verified keyed versioned h =
      absurd (ground (arith, verified, keyed, versioned))
  ok-Welcome_version m now msg p cert key (some version) verified keyed versioned h = record {
    cert = cert;
    key = key;
    version = version;
    verified = verified;
    keyed = keyed;
    signed = ground (arith, verified, keyed, versioned);
    versioned = versioned;
    targeted =
        ground (
          arith,
          verified,
          keyed,
          versioned,
          eq_iff p.target_id (Keypair.key_string x m.public_key),
        );
  }

  ok-Welcome_key :
      (m : Agent V) (now : ℕ) (msg : Message) (p : SynPayload) (cert : BzCert) (key : Option Bytes)
      → BzCert.verify x m.idp_provider m.idp_org_id m.service_accounts now p.bz_cert ≡ ok cert
      → Keypair.public_key_from_string x cert.client_public_key ≡ key
      → (validate_syn x m now msg p).1 ≡ ok tt
      → Welcome m now msg p
  unfolding validate_syn accept_cert
  ok-Welcome_key m now msg p cert none verified keyed h = absurd (ground (arith, verified, keyed))
  ok-Welcome_key m now msg p cert (some key) verified keyed h =
      ok-Welcome_version m now msg p cert key (x.new_version p.schema_version) verified keyed refl h

  ok-Welcome :
      (m : Agent V) (now : ℕ) (msg : Message) (p : SynPayload) (r : Outcome CertError BzCert)
      → BzCert.verify x m.idp_provider m.idp_org_id m.service_accounts now p.bz_cert ≡ r
      → (validate_syn x m now msg p).1 ≡ ok tt
      → Welcome m now msg p
  unfolding validate_syn
  ok-Welcome m now msg p (ok cert) e h =
      ok-Welcome_key m now msg p cert (Keypair.public_key_from_string x cert.client_public_key) e
        refl h
  ok-Welcome m now msg p (err f) e h = absurd (ground (arith, e))
  ok-Welcome m now msg p panic e h = absurd (ground (arith, e))

  refused :
      (m : Agent V) (now : ℕ) (msg : Message) (p : SynPayload) (cert : BzCert) (key : Bytes)
      → BzCert.verify x m.idp_provider m.idp_org_id m.service_accounts now p.bz_cert ≡ ok cert
      → Keypair.public_key_from_string x cert.client_public_key ≡ some key
      → Message.verify_signature x msg (some key) ≡ err invalid_signature
      → validate_syn x m now msg p
        ≡ (record m { client_public_key = some key }, err (message_error invalid_signature))
  unfolding validate_syn accept_cert as_agent
  refused m now msg p cert key verified keyed forged = ground (arith, verified, keyed, forged)

  -- The agent accepts a Syn exactly when its certificate verifies, the message is signed under the key
  -- that the certificate names, its schema version parses, and, where that version is above 1.0, it
  -- names this agent's key. It then holds that certificate, with its hash and expiry, that key and that
  -- version, and nothing else has changed.
  pub validate-syn_iff :
      (m : Agent V) (now : ℕ) (msg : Message) (p : SynPayload)
      → IsSyn msg p
      → (((validate x m now msg).1 ≡ ok tt) → Welcome m now msg p)
        × ((w : Welcome m now msg p)
            → validate x m now msg ≡ (greeted m w.cert w.key w.version, ok tt))
  validate-syn_iff m now msg p s =
      rw (validate-syn m now msg p s)
        (λ h. ok-Welcome m now msg p _ refl h, λ w. Welcome-ok m now msg p w)

  -- A Syn whose certificate verifies and whose signature does not is refused, and leaves the key of its
  -- certificate beside the certificate accepted before.
  pub refused_syn_takes_key :
      (m : Agent V) (now : ℕ) (msg : Message) (p : SynPayload) (cert : BzCert) (key : Bytes)
      → IsSyn msg p
      → BzCert.verify x m.idp_provider m.idp_org_id m.service_accounts now p.bz_cert ≡ ok cert
      → Keypair.public_key_from_string x cert.client_public_key ≡ some key
      → Message.verify_signature x msg (some key) ≡ err invalid_signature
      → validate x m now msg
        ≡ (record m { client_public_key = some key }, err (message_error invalid_signature))
  refused_syn_takes_key m now msg p cert key s verified keyed forged =
      validate-syn m now msg p s ∙ refused m now msg p cert key verified keyed forged
