-- ===== src/Pbft/Signature.antt =====
-- consensus/pbft/digest.go, consensus/pbft/signature.go, models/execute/request_signature.go and the
-- signatures of models/execute/result.go.
pub mod RoundTrip
use b7s.Common.{List, [], Bool, true, false, Option, none, some}
use b7s.Common.Text.{Text}
use b7s.Common.Hex
use b7s.Models.{PeerId, ExecuteRequest, NodeResult}
use b7s.Pbft.Message.{Message, Payload, Signable, message, execute_request, node_result}
use b7s.Pbft.Action.{
  Env, Result, ok, err, Done, no_public_key, bad_signature_hex, verification_failed,
  invalid_signature, signing_failed, encoding_failed,
}

-- The error of `json.Marshal` is dropped, and then nothing is hashed.
unfoldable pub get_digest : Env → Message → Text
get_digest env rec =
    Hex.encode
      (env.sha256 (elim (env.marshal (message rec)) [ none ↦ [] | some payload ↦ payload ]))

abbrev pub signed_digest : {M : Type 0} → ⦃s : Signable M⦄ → Env → M → Text
signed_digest ⦃s⦄ env rec = get_digest env (s.as_message (s.signable_record rec))

unfoldable pub sign : {M : Type 0} → ⦃s : Signable M⦄ → Env → M → Result M
sign ⦃s⦄ env rec = elim (env.sign_bytes (signed_digest env rec)) [
  | none ↦ err signing_failed
  | some sig ↦ ok (s.set_signature (Hex.encode sig) rec)
]

-- `pub.Verify`, and what its two results lead to.
unfoldable pub check_signature : Env → Text → Text → Text → Result Done
check_signature env key payload signature = elim (Hex.decode signature) [
  | none ↦ err bad_signature_hex
  | some sig ↦ elim (env.verify_bytes key payload sig) [
    | none ↦ err verification_failed
    | some false ↦ err invalid_signature
    | some true ↦ ok tt
  ]
]

unfoldable pub verify_signature : {M : Type 0} → ⦃s : Signable M⦄ → Env → M → PeerId → Result Done
unfolding check_signature
verify_signature ⦃s⦄ env rec signer = elim (env.extract_public_key signer) [
  | none ↦ err no_public_key
  | some key ↦ check_signature env key (signed_digest env rec) (s.get_signature rec)
]

-- `execute.Request.Sign` copies the request before it clears the signature, and signs the copy.
unfoldable pub sign_request : Env → ExecuteRequest → Result ExecuteRequest
sign_request env e = elim (env.marshal (execute_request e)) [
  | none ↦ err encoding_failed
  | some payload ↦ elim (env.sign_bytes payload) [
    | none ↦ err signing_failed
    | some sig ↦ ok (record e { signature = Hex.encode sig })
  ]
]

unfoldable pub verify_request : Env → ExecuteRequest → Text → Result Done
unfolding check_signature
verify_request env e key = elim (env.marshal (execute_request (record e { signature = [] }))) [
  | none ↦ err encoding_failed
  | some payload ↦ check_signature env key payload e.signature
]

unfoldable pub sign_result : Env → NodeResult → Result NodeResult
sign_result env r = elim (env.marshal (node_result (record r { signature = [] }))) [
  | none ↦ err encoding_failed
  | some payload ↦ elim (env.sign_bytes payload) [
    | none ↦ err signing_failed
    | some sig ↦ ok (record r { signature = Hex.encode sig })
  ]
]

unfoldable pub verify_result : Env → NodeResult → Text → Result Done
unfolding check_signature
verify_result env r key = elim (env.marshal (node_result (record r { signature = [] }))) [
  | none ↦ err encoding_failed
  | some payload ↦ check_signature env key payload r.signature
]
