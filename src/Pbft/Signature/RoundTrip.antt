-- ===== src/Pbft/Signature/RoundTrip.antt =====
-- What is signed verifies: messages, execution results and execution requests.
use b7s.Common.{◌≡◌, ◌<◌, refl, [], true, some, arith, All, Bool-cases, Option-cases, inl, inr}
use b7s.Common.Text.{Text}
use b7s.Common.Hex
use b7s.Models.{PeerId, ExecuteRequest, NodeResult, TraceInfo}
use b7s.Pbft.Message.{
  Signable, PrePrepare, Prepare, Commit, ViewChange, NewView, pre_prepare_signable,
  prepare_signable, commit_signable, view_change_signable, new_view_signable, execute_request,
  node_result,
}
use b7s.Pbft.Action.{Env, ok}
use b7s.Pbft.Messaging.{save_trace_context, is_empty}
use b7s.Pbft.Signature.{
  signed_digest, sign, check_signature, verify_signature, sign_request, verify_request, sign_result,
  verify_result,
}

-- The documented behaviour of the key pair of a peer: its signatures are bytes, and they verify.
pub record KeyPair (env : Env) (signer : PeerId) (key : Text) : Type 0 where
  pub extracts : env.extract_public_key signer ≡ some key
  pub is_bytes : (payload sig : Text) → env.sign_bytes payload ≡ some sig → All (λ b. b < 256) sig
  pub verifies :
      (payload sig : Text)
      → env.sign_bytes payload ≡ some sig
      → env.verify_bytes key payload sig ≡ some true

-- What the signing code relies on in a message.
pub record SignableLaws (M : Type 0) ⦃s : Signable M⦄ : Type 0 where
  pub record-set :
      (sig : Text) (m : M) → s.signable_record (s.set_signature sig m) ≡ s.signable_record m
  pub record-save :
      (t : TraceInfo) (m : M) → s.signable_record (s.save_trace_context t m) ≡ s.signable_record m
  pub get-set : (sig : Text) (m : M) → s.get_signature (s.set_signature sig m) ≡ sig
  pub get-save :
      (t : TraceInfo) (m : M) → s.get_signature (s.save_trace_context t m) ≡ s.get_signature m

instance abbrev pub pre_prepare_laws : SignableLaws PrePrepare
pre_prepare_laws = record {
  record-set = λ sig m. refl;
  record-save = λ t m. refl;
  get-set = λ sig m. refl;
  get-save = λ t m. refl;
}

instance abbrev pub prepare_laws : SignableLaws Prepare
prepare_laws = record {
  record-set = λ sig m. refl;
  record-save = λ t m. refl;
  get-set = λ sig m. refl;
  get-save = λ t m. refl;
}

instance abbrev pub commit_laws : SignableLaws Commit
commit_laws = record {
  record-set = λ sig m. refl;
  record-save = λ t m. refl;
  get-set = λ sig m. refl;
  get-save = λ t m. refl;
}

instance abbrev pub view_change_laws : SignableLaws ViewChange
view_change_laws = record {
  record-set = λ sig m. refl;
  record-save = λ t m. refl;
  get-set = λ sig m. refl;
  get-save = λ t m. refl;
}

instance abbrev pub new_view_laws : SignableLaws NewView
new_view_laws = record {
  record-set = λ sig m. refl;
  record-save = λ t m. refl;
  get-set = λ sig m. refl;
  get-save = λ t m. refl;
}

check_signature-encode :
    (env : Env) (signer : PeerId) (key payload sig : Text)
    → KeyPair env signer key
    → env.sign_bytes payload ≡ some sig
    → check_signature env key payload (Hex.encode sig) ≡ ok tt
unfolding check_signature
check_signature-encode env signer key payload sig k e =
    ground (arith, Hex.decode-encode sig (k.is_bytes payload sig e), k.verifies payload sig e)

sign-parts :
    {M : Type 0} ⦃s : Signable M⦄ (env : Env) (m signed : M)
    → sign env m ≡ ok signed
    → (sig : Text) × (env.sign_bytes (signed_digest env m) ≡ some sig)
      × (signed ≡ s.set_signature (Hex.encode sig) m)
unfolding sign
sign-parts ⦃s⦄ env m signed h = elim (Option-cases (env.sign_bytes (signed_digest env m))) [
  | inl e ↦ ground arith
  | inr (sig, e) ↦ (sig, e, ground arith)
]

module _ (env : Env) (signer : PeerId) (key : Text) (k : KeyPair env signer key) where
  saved_parts :
      {M : Type 0} ⦃s : Signable M⦄ ⦃l : SignableLaws M⦄ (t : TraceInfo) (m : M)
      → (s.signable_record (save_trace_context t m) ≡ s.signable_record m)
        × (s.get_signature (save_trace_context t m) ≡ s.get_signature m)
  unfolding save_trace_context
  saved_parts ⦃s⦄ ⦃l⦄ t m = elim (Bool-cases (is_empty t)) [
    | inl e ↦ (rw e, rw e)
    | inr e ↦ (rw e (l.record-save t m), rw e (l.get-save t m))
  ]

  -- A message that a replica has signed verifies under its identity, also after the trace context
  -- has been written into it for the sending.
  pub verify-save-sign :
      {M : Type 0} ⦃s : Signable M⦄ ⦃l : SignableLaws M⦄ (t : TraceInfo) (m signed : M)
      → sign env m ≡ ok signed
      → verify_signature env (save_trace_context t signed) signer ≡ ok tt
  unfolding verify_signature
  verify-save-sign ⦃s⦄ ⦃l⦄ t m signed h =
      let (sig, e, q) = sign-parts env m signed h in
      let parts = saved_parts t signed in
      let checked = check_signature-encode env signer key (signed_digest env m) sig k e in
      ground (
        arith,
        k.extracts,
        checked,
        parts,
        l.record-set (Hex.encode sig) m,
        l.get-set (Hex.encode sig) m,
      )

  -- A signed execution result verifies.
  pub verify-sign_result :
      (res signed : NodeResult)
      → sign_result env res ≡ ok signed
      → verify_result env signed key ≡ ok tt
  unfolding sign_result verify_result
  verify-sign_result res signed h =
      elim (Option-cases (env.marshal (node_result (record res { signature = [] })))) [
        | inl e ↦ ground arith
        | inr (payload, e) ↦ elim (Option-cases (env.sign_bytes payload)) [
          | inl f ↦ ground arith
          | inr (sig, f) ↦ ground (arith, check_signature-encode env signer key payload sig k f)
        ]
      ]

  -- A signed execution request verifies, provided that it bore no signature before.
  pub verify-sign_request :
      (e signed : ExecuteRequest)
      → e.signature ≡ []
      → sign_request env e ≡ ok signed
      → verify_request env signed key ≡ ok tt
  unfolding sign_request verify_request
  verify-sign_request e signed b h = elim (Option-cases (env.marshal (execute_request e))) [
    | inl f ↦ ground arith
    | inr (payload, f) ↦ elim (Option-cases (env.sign_bytes payload)) [
      | inl g ↦ ground arith
      | inr (sig, g) ↦ ground (arith, check_signature-encode env signer key payload sig k g)
    ]
  ]
