-- ===== src/Mrtap/Agent/Accept.antt =====
-- When the agent accepts a Data message, and what it changes.
use bzero.Shared.{
  ℕ, ◌≤◌, Bool, true, false, Option, none, some, ◌≡◌, ◌↔◌, refl, ap, ◌∙◌, eq_iff, arith, Outcome,
  ok, err, panic, if◌then◌else◌,
}
use bzero.Mrtap.Types.{BzCert, data_, DataPayload, data_payload, Message}
use bzero.Mrtap.Externals.{Externals}
use bzero.Mrtap.Message
use bzero.Mrtap.Message.{invalid_signature}
use bzero.Mrtap.BzCert
use bzero.Mrtap.BzCert.{CertError}
use bzero.Mrtap.Agent.{Agent, AgentError, validate, validate_data, accept_data, as_agent}

-- Whether a method returned without an error.
abbrev pub is_ok : {A : Type 0} → Outcome AgentError A → Bool
is_ok (ok a) = true
is_ok (err e) = false
is_ok panic = false

module _ {V : Type 0} (x : Externals V) where
  -- What a Data message must satisfy in a state of the agent.
  pub record Admissible (m : Agent V) (now : ℕ) (msg : Message) (p : DataPayload) : Type 0 where
    pub cert : BzCert
    pub stored : m.client_bz_cert ≡ some cert
    pub same_cert : cert.hash ≡ p.bz_cert_hash
    pub signed : Message.verify_signature x msg m.client_public_key ≡ ok tt
    pub live : now ≤ cert.expiration
    pub chained : p.h_pointer ≡ m.expected_hpointer

  abbrev pub IsData : Message → DataPayload → Type 0
  IsData msg p = (msg.type ≡ data_) × (msg.payload ≡ data_payload p)

  validate-data :
      (m : Agent V) (now : ℕ) (msg : Message) (p : DataPayload)
      → IsData msg p
      → validate x m now msg ≡ validate_data x m now msg p
  unfolding validate
  validate-data m now msg p (t, q) = rw (t, q)

  Admissible-ok :
      (m : Agent V) (now : ℕ) (msg : Message) (p : DataPayload)
      → Admissible m now msg p
      → validate_data x m now msg p ≡ (record m { last_data_message = some msg }, ok tt)
  unfolding validate_data accept_data as_agent BzCert.expired
  Admissible-ok m now msg p a = ground (
    arith,
    a.stored,
    a.same_cert,
    a.signed,
    a.live,
    a.chained,
    eq_iff a.cert.hash p.bz_cert_hash,
    eq_iff p.h_pointer m.expected_hpointer,
  )

  pub Admissible-validate :
      (m : Agent V) (now : ℕ) (msg : Message) (p : DataPayload)
      → IsData msg p
      → Admissible m now msg p
      → validate x m now msg ≡ (record m { last_data_message = some msg }, ok tt)
  Admissible-validate m now msg p d a = validate-data m now msg p d ∙ Admissible-ok m now msg p a

  ok-Admissible :
      (m : Agent V) (now : ℕ) (msg : Message) (p : DataPayload) (stored : Option BzCert)
      → m.client_bz_cert ≡ stored
      → (validate_data x m now msg p).1 ≡ ok tt
      → Admissible m now msg p
  unfolding validate_data accept_data as_agent BzCert.expired
  ok-Admissible m now msg p none e h = absurd (ground (arith, e))
  ok-Admissible m now msg p (some cert) e h = record {
    cert = cert;
    stored = e;
    same_cert = ground (arith, e, eq_iff cert.hash p.bz_cert_hash);
    signed = ground (arith, e);
    live = ground (arith, e);
    chained = ground (arith, e, eq_iff p.h_pointer m.expected_hpointer);
  }

  data-frame :
      (m : Agent V) (now : ℕ) (msg : Message) (p : DataPayload) (stored : Option BzCert)
      → m.client_bz_cert ≡ stored
      → (validate_data x m now msg p).0 ≡ (
          if is_ok (validate_data x m now msg p).1
          then record m { last_data_message = some msg }
          else m)
  unfolding validate_data accept_data as_agent
  data-frame m now msg p none e = ground (arith, e)
  data-frame m now msg p (some cert) e = ground (arith, e)

  -- The agent accepts a Data message exactly when it holds a certificate of the hash that the message
  -- names, unexpired, the message is signed under the client key that the agent holds, and it points
  -- to the hash that the agent expects. Then only the last Data message changes; if not, nothing does.
  -- (The key that the agent holds need not be that of the certificate it holds.)
  pub validate-data_iff :
      (m : Agent V) (now : ℕ) (msg : Message) (p : DataPayload)
      → IsData msg p
      → (((validate x m now msg).1 ≡ ok tt) ↔ Admissible m now msg p)
        × ((validate x m now msg).0 ≡ (
            if is_ok (validate x m now msg).1
            then record m { last_data_message = some msg }
            else m))
  validate-data_iff m now msg p d = rw (validate-data m now msg p d) (
    (
      λ h. ok-Admissible m now msg p m.client_bz_cert refl h,
      λ a. ap (λ r. r.1) (Admissible-ok m now msg p a),
    ),
    frame,
  )
    where
      frame : (validate_data x m now msg p).0 ≡ (
          if is_ok (validate_data x m now msg p).1
          then record m { last_data_message = some msg }
          else m)
      frame = data-frame m now msg p m.client_bz_cert refl
