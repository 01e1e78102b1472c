-- ===== src/Node/Gate/Accepted.antt =====
-- The messages that reach a handler.
use b7s.Common.{
  Bool, true, false, not, Option, some, if◌then◌else◌, ◌==◌, nat_eq, ◌≡◌, ◌≢◌, refl, sym, subst,
  ◌∙◌, ◌↔◌, arith, Option-cases, inl, inr,
}
use b7s.Common.Text.{Text, text_eq, text_beq, text_beq_iff}
use b7s.Node.Gate.{
  MessageKind, health_check, install_function, install_function_response, roll_call,
  roll_call_response, execute, execute_response, form_cluster, form_cluster_response,
  disband_cluster, message_type, direct_message, Pipeline, NodeRole, head_node, worker_node,
  message_allowed_on_pipeline, message_allowed_for_role, Disposition, dispose, handled_by, dropped,
  unknown_type, handler_of,
}

-- The ways on which a message of a kind may come.
pub data Channel : Type 0 where
  published sent either : Channel

abbrev pub channel_of : MessageKind → Channel
channel_of health_check = published
channel_of roll_call = published
channel_of install_function = either
channel_of _ = sent

abbrev pub fits : Channel → Bool → Bool
fits published direct = not direct
fits sent direct = direct
fits either direct = true

-- Who has work for a message of a kind.
abbrev pub concerns : MessageKind → NodeRole → Bool
concerns health_check role = true
concerns execute role = true
concerns install_function_response head_node = true
concerns roll_call_response head_node = true
concerns execute_response head_node = true
concerns form_cluster_response head_node = true
concerns install_function worker_node = true
concerns roll_call worker_node = true
concerns form_cluster worker_node = true
concerns disband_cluster worker_node = true
concerns _ _ = false

on_pipeline :
    (kind : MessageKind) (pipeline : Pipeline)
    → message_allowed_on_pipeline (message_type kind) pipeline
      ≡ fits (channel_of kind) (pipeline.id == direct_message)
unfolding message_allowed_on_pipeline text_beq
on_pipeline health_check pipeline = ground arith
on_pipeline roll_call pipeline = ground arith
on_pipeline install_function pipeline = ground arith
on_pipeline install_function_response pipeline = ground arith
on_pipeline roll_call_response pipeline = ground arith
on_pipeline execute pipeline = ground arith
on_pipeline execute_response pipeline = ground arith
on_pipeline form_cluster pipeline = ground arith
on_pipeline form_cluster_response pipeline = ground arith
on_pipeline disband_cluster pipeline = ground arith

for_role :
    (kind : MessageKind) (role : NodeRole)
    → message_allowed_for_role role (message_type kind) ≡ concerns kind role
unfolding message_allowed_for_role text_beq
for_role health_check head_node = refl
for_role health_check worker_node = refl
for_role install_function head_node = refl
for_role install_function worker_node = refl
for_role install_function_response head_node = refl
for_role install_function_response worker_node = refl
for_role roll_call head_node = refl
for_role roll_call worker_node = refl
for_role roll_call_response head_node = refl
for_role roll_call_response worker_node = refl
for_role execute head_node = refl
for_role execute worker_node = refl
for_role execute_response head_node = refl
for_role execute_response worker_node = refl
for_role form_cluster head_node = refl
for_role form_cluster worker_node = refl
for_role form_cluster_response head_node = refl
for_role form_cluster_response worker_node = refl
for_role disband_cluster head_node = refl
for_role disband_cluster worker_node = refl

handler_of-message_type : (kind : MessageKind) → handler_of (message_type kind) ≡ handled_by kind
unfolding handler_of text_beq
handler_of-message_type health_check = refl
handler_of-message_type install_function = refl
handler_of-message_type install_function_response = refl
handler_of-message_type roll_call = refl
handler_of-message_type roll_call_response = refl
handler_of-message_type execute = refl
handler_of-message_type execute_response = refl
handler_of-message_type form_cluster = refl
handler_of-message_type form_cluster_response = refl
handler_of-message_type disband_cluster = refl

handler_of_inversion :
    (msg : Text) (kind : MessageKind) → handler_of msg ≡ handled_by kind → msg ≡ message_type kind
unfolding handler_of
handler_of_inversion msg kind h = ground (
  arith,
  text_beq_iff msg (message_type health_check),
  text_beq_iff msg (message_type install_function),
  text_beq_iff msg (message_type install_function_response),
  text_beq_iff msg (message_type roll_call),
  text_beq_iff msg (message_type roll_call_response),
  text_beq_iff msg (message_type execute),
  text_beq_iff msg (message_type execute_response),
  text_beq_iff msg (message_type form_cluster),
  text_beq_iff msg (message_type form_cluster_response),
  text_beq_iff msg (message_type disband_cluster),
)

handler_of_known :
    (role : NodeRole) (msg : Text)
    → message_allowed_for_role role msg ≡ true
    → handler_of msg ≢ unknown_type
unfolding message_allowed_for_role handler_of
handler_of_known head_node msg h u = ground arith
handler_of_known worker_node msg h u = ground arith

some_injective : (a b : Text) → some a ≡ some b → a ≡ b
some_injective a b h = cc

-- The tests of a message that has been read.
abbrev gated : NodeRole → Pipeline → Text → Disposition
gated role pipeline msg =
    if not (message_allowed_on_pipeline msg pipeline)
    then dropped
    else if not (message_allowed_for_role role msg)
    then dropped
    else handler_of msg

passes :
    (role : NodeRole) (pipeline : Pipeline) (msg : Text) (kind : MessageKind)
    → gated role pipeline msg ≡ handled_by kind
    → (msg ≡ message_type kind)
      × (message_allowed_on_pipeline msg pipeline ≡ true)
      × (message_allowed_for_role role msg ≡ true)
passes role pipeline msg kind h =
    (handler_of_inversion msg kind (ground arith), ground arith, ground arith)

gated-handled_by :
    (role : NodeRole) (pipeline : Pipeline) (msg : Text) (kind : MessageKind)
    → (gated role pipeline msg ≡ handled_by kind) ↔ (
        (msg ≡ message_type kind)
        × (concerns kind role ≡ true)
        × (fits (channel_of kind) (pipeline.id == direct_message) ≡ true))
gated-handled_by role pipeline msg kind = (
  λ h.
      let (e, p, r) = passes role pipeline msg kind h in
      (
        e,
        sym (for_role kind role) ∙ subst (λ m. message_allowed_for_role role m ≡ true) e r,
        sym (on_pipeline kind pipeline)
            ∙ subst (λ m. message_allowed_on_pipeline m pipeline ≡ true) e p,
      ),
  λ (e, c, f). rw (e, on_pipeline, for_role, c, f) (handler_of-message_type kind),
)

dispose-gated :
    (get : Text → Option Text) (role : NodeRole) (payload : Text) (pipeline : Pipeline) (msg : Text)
    → get payload ≡ some msg
    → dispose get role payload pipeline ≡ gated role pipeline msg
unfolding dispose
dispose-gated get role payload pipeline msg e = rw (dispose, e) refl

-- A message is handled as one of a kind just when its type is that of the kind, the node has the role
-- for it, and it came on a way that fits: health checks and roll calls are published, installs
-- come either way, and all else is sent to the node. No message is ever refused for an
-- unknown type, since the tests of the way and the role drop it before.
pub dispose-handled_by :
    (get_message_type : Text → Option Text) (role : NodeRole) (payload : Text) (pipeline : Pipeline)
    → ((kind : MessageKind)
        → (dispose get_message_type role payload pipeline ≡ handled_by kind) ↔ (
            (get_message_type payload ≡ some (message_type kind))
            × (concerns kind role ≡ true)
            × (fits (channel_of kind) (pipeline.id == direct_message) ≡ true)))
      × (dispose get_message_type role payload pipeline ≢ unknown_type)
unfolding dispose
dispose-handled_by get role payload pipeline = elim (Option-cases (get payload)) [
  | inl n ↦ (λ kind. (λ h. ground arith, λ h. ground arith), λ u. ground arith)
  | inr (msg, e) ↦
      let q = dispose-gated get role payload pipeline msg e in
      (
        λ kind. (
          λ h.
              let (a, c, f) = (gated-handled_by role pipeline msg kind).0 (sym q ∙ h) in (cc, c, f),
          λ (a, c, f).
              q
              ∙ (gated-handled_by role pipeline msg kind).1
                  (some_injective msg _ (sym e ∙ a), c, f),
        ),
        λ u. ground (arith, q, handler_of_known role msg),
      )
]
