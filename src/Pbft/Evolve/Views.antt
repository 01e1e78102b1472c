-- ===== src/Pbft/Evolve/Views.antt =====
-- The handlers of the view changes, and with them every input of a replica.
use b7s.Common.{
  ℕ, false, List, [], ◌∷◌, refl, Bool-cases, Option-cases, inl, inr, not, ◌==◌, nat_eq, ltb, leb,
  ◌&&◌,
}
use b7s.Common.Text.{text_eq}
use b7s.Common.Map.{Map, lookup, has}
use b7s.Models.{PeerId}
use b7s.Pbft.Core.{primary}
use b7s.Pbft.Message.{
  Message, Request, PrePrepare, ViewChange, NewView, request, pre_prepare, prepare, commit,
  view_change, new_view, view_change_signable, new_view_signable,
}
use b7s.Pbft.State.{Replica}
use b7s.Pbft.Action.{Env, ok, logged, lift, ◌>>◌}
use b7s.Pbft.Conditions.{peer_at, view_change_ready}
use b7s.Pbft.ViewChange.{
  announce_view_change, start_view_change, record_view_change_receipt, should_send_view_change,
  enter_view_change,
}
use b7s.Pbft.NewView.{
  resubmit_request, resubmit, announce_new_view, install_pre_prepares, open_new_view,
  launch_new_view, start_new_view, join_view_change, lead_new_view, follow_view_change,
  accept_view_change, process_view_change, valid_new_view, process_pre_prepares, watch_outstanding,
  follow_new_view, process_new_view,
}
use b7s.Pbft.Signature.{get_digest}
use b7s.Pbft.Request.{process_request}
use b7s.Pbft.Cleanup.{outstanding_requests}
use b7s.Pbft.Messaging.{is_empty}
use b7s.Pbft.Process.{dispatch, process_message}
use b7s.Pbft.Evolve.{
  HoldsNormally, HoldsOpening, HoldsAlways, always-HoldsOpening, HoldsHandled, Evolves,
  bind-Evolves,
}
use b7s.Pbft.Evolve.Requests.{process_request-Evolves}
use b7s.Pbft.Evolve.Normal.{
  if-Evolves, broadcast-Evolves, process_pre_prepare-Evolves, process_prepare-Evolves,
  process_commit-Evolves,
}

module _ (from : PeerId) (R : Replica → Replica → Type 0) (h : HoldsNormally from R)
    (receipt : (m : ViewChange) (r : Replica) → R r (record_view_change_receipt r.id m r)) where
  pub announce_view_change-Evolves : (env : Env) → Evolves R (announce_view_change env)
  unfolding announce_view_change
  announce_view_change-Evolves env = bind-Evolves from R h _ _ h.same λ vc.
      bind-Evolves from R h _ _ h.same λ signed.
        bind-Evolves from R h _ _ (broadcast-Evolves from R h env signed) λ traced. receipt traced

module _ (from : PeerId) (R : Replica → Replica → Type 0) (h : HoldsNormally from R) where
  -- The new view is opened by a primary that has announced it.
  resubmit-Evolves : (env : Env) (reqs : List Request) → Evolves R (resubmit env reqs)
  unfolding resubmit resubmit_request
  resubmit-Evolves env [] = h.same
  resubmit-Evolves env (req ∷ rest) =
      bind-Evolves from R h (resubmit_request env req) _
        (λ r.
          if-Evolves from R h (has (lookup (get_digest env (request req)) r.pending))
            (λ s. (ok tt, s)) (logged (process_request env req.origin req)) h.same
            (process_request-Evolves from R h env req.origin req) r)
        λ _. resubmit-Evolves env rest

  announce_new_view-Evolves :
      (env : Env) (view : ℕ) (vcs : Map PeerId ViewChange)
      → Evolves R (announce_new_view env view vcs)
  unfolding announce_new_view
  announce_new_view-Evolves env view vcs = bind-Evolves from R h _ _ h.same λ pps.
      bind-Evolves from R h _ _ h.same
        λ signed. bind-Evolves from R h _ _ (broadcast-Evolves from R h env signed) λ _. h.same

  process_pre_prepares-Evolves :
      (env : Env) (p : PeerId) (pps : List PrePrepare) → Evolves R (process_pre_prepares env p pps)
  unfolding process_pre_prepares
  process_pre_prepares-Evolves env p [] = h.same
  process_pre_prepares-Evolves env p (pp ∷ pps) =
      bind-Evolves from R h _ _ (process_pre_prepare-Evolves from R h env p pp)
        λ _. process_pre_prepares-Evolves env p pps

  watch_outstanding-Evolves : (r : Replica) → R r (watch_outstanding r)
  unfolding watch_outstanding
  watch_outstanding-Evolves r = elim (Bool-cases (is_empty (outstanding_requests r))) [
    | inl e ↦ rw e (h.same r)
    | inr e ↦ rw e (h.start_timer false r)
  ]

  pub follow_new_view-Evolves :
      (env : Env) (p : PeerId) (m : NewView)
      → HoldsOpening from m.view R
      → Evolves R (follow_new_view env p m)
  unfolding follow_new_view
  follow_new_view-Evolves env p m o = bind-Evolves from R h _ _ o.enter λ _.
      bind-Evolves from R h _ _ o.cleanup λ _.
        bind-Evolves from R h _ _ (process_pre_prepares-Evolves env p m.pre_prepares)
          λ _. watch_outstanding-Evolves

module _ (from : PeerId) (view : ℕ) (R : Replica → Replica → Type 0)
    (h : HoldsOpening from view R) where
  install-Evolves : (pps : List PrePrepare) (r : Replica) → R r (install_pre_prepares pps r)
  unfolding install_pre_prepares
  install-Evolves [] r = h.same r
  install-Evolves (pp ∷ pps) r = h.join r _ _ (h.install pp r) (install-Evolves pps _)

  open_new_view-Evolves :
      (env : Env) (pps : List PrePrepare) → Evolves R (open_new_view env view pps)
  unfolding open_new_view
  open_new_view-Evolves env pps = bind-Evolves from R h.normal _ _ h.cleanup λ _.
      bind-Evolves from R h.normal _ _ (install-Evolves pps) λ _.
        bind-Evolves from R h.normal _ _ h.enter λ _.
          bind-Evolves from R h.normal _ _ h.same λ reqs. resubmit-Evolves from R h.normal env reqs

  launch_new_view-Evolves : (env : Env) → Evolves R (launch_new_view env view)
  unfolding launch_new_view
  launch_new_view-Evolves env = bind-Evolves from R h.normal _ _ h.same λ ready.
      bind-Evolves from R h.normal _ _ h.same λ _.
        bind-Evolves from R h.normal _ _ h.same λ messages.
          bind-Evolves from R h.normal _ _
            (announce_new_view-Evolves from R h.normal env view messages)
            λ pps. open_new_view-Evolves env pps

  pub start_new_view-Evolves : (env : Env) → Evolves R (start_new_view env view)
  unfolding start_new_view
  start_new_view-Evolves env r = elim (Bool-cases (peer_at r.peers (primary r.core view) == r.id)) [
    | inr e ↦ rw e (h.same r)
    | inl e ↦ elim (Option-cases (lookup view r.view_changes)) [
      | inl f ↦ rw (e, f, start_new_view) (h.same r)
      | inr (vcs, f) ↦
          rw (e, f, start_new_view) (h.join r _ _ (h.own vcs r f) (launch_new_view-Evolves env _))
    ]
  ]

module _ (from : PeerId) (R : Replica → Replica → Type 0) (h : HoldsAlways from R) where
  pub start_view_change-Evolves : (env : Env) (view : ℕ) → Evolves R (start_view_change env view)
  unfolding start_view_change
  start_view_change-Evolves env view r =
      if-Evolves from R h.normal (leb view r.view) (λ s. (ok tt, s))
        (λ s. announce_view_change env (enter_view_change view s)) h.same
        (λ s. h.join s _ _ (h.change view s) (
          announce_view_change-Evolves from R h.normal (λ m r. h.receipt r.id m r (inr refl)) env
            _))
        r

  pub join_view_change-Evolves : (env : Env) → Evolves R (join_view_change env)
  unfolding join_view_change
  join_view_change-Evolves env r =
      if-Evolves from R h.normal ((should_send_view_change r).1)
        (logged (start_view_change env (should_send_view_change r).0)) (λ s. (ok tt, s))
        (start_view_change-Evolves env _) h.same r

  lead_new_view-Evolves : (env : Env) (view : ℕ) → Evolves R (lead_new_view env view)
  unfolding lead_new_view
  lead_new_view-Evolves env view r =
      elim (Bool-cases (peer_at r.peers (primary r.core view) == r.id)) [
        | inr e ↦ rw e (h.same r)
        | inl e ↦ rw e (
            if-Evolves from R h.normal (not (view_change_ready r view)) (λ s. (ok tt, s))
              (start_new_view env view) h.same
              (start_new_view-Evolves from view R (always-HoldsOpening from R view h) env) r)
      ]

  process_view_change-Evolves :
      (env : Env) (m : ViewChange) → Evolves R (process_view_change env from m)
  unfolding process_view_change accept_view_change follow_view_change
  process_view_change-Evolves env m r =
      if-Evolves from R h.normal (ltb m.view r.view) (λ s. (ok tt, s))
        (accept_view_change env from m) h.same
        (bind-Evolves from R h.normal _ _ h.same λ _.
          bind-Evolves from R h.normal _ _ h.same λ valid.
            bind-Evolves from R h.normal _ _ h.same λ _.
              bind-Evolves from R h.normal _ _ (λ r. h.receipt from m r (inl refl))
                λ _. λ s.
                  if-Evolves from R h.normal ((m.view == s.view) && s.active_view) (λ t. (ok tt, t))
                    (join_view_change env >> lead_new_view env m.view) h.same
                    (bind-Evolves from R h.normal _ _ (join_view_change-Evolves env)
                      λ _. lead_new_view-Evolves env m.view)
                    s)
        r

  process_new_view-Evolves :
      (env : Env) (p : PeerId) (m : NewView) → Evolves R (process_new_view env p m)
  unfolding process_new_view
  process_new_view-Evolves env p m r =
      if-Evolves from R h.normal (ltb m.view r.view) (λ s. (ok tt, s))
        (lift (valid_new_view env r p m) >> follow_new_view env p m) h.same
        (bind-Evolves from R h.normal _ _ h.same λ _.
          follow_new_view-Evolves from R h.normal env p m (always-HoldsOpening from R m.view h))
        r

  pub always-HoldsHandled : HoldsHandled from R
  always-HoldsHandled = record {
    normal = h.normal;
    begin = start_view_change-Evolves;
    changed = process_view_change-Evolves;
    entered = λ env m. process_new_view-Evolves env from m;
  }

module _ (from : PeerId) (R : Replica → Replica → Type 0) (h : HoldsHandled from R) where
  dispatch-Evolves : (env : Env) (m : Message) → Evolves R (dispatch env from m)
  unfolding dispatch
  dispatch-Evolves env (request m) = process_request-Evolves from R h.normal env from m
  dispatch-Evolves env (pre_prepare m) = process_pre_prepare-Evolves from R h.normal env from m
  dispatch-Evolves env (prepare m) = process_prepare-Evolves from R h.normal env m
  dispatch-Evolves env (commit m) = process_commit-Evolves from R h.normal env m
  dispatch-Evolves env (view_change m) = h.changed env m
  dispatch-Evolves env (new_view m) = h.entered env m

  pub process_message-Evolves : (env : Env) (m : Message) → Evolves R (process_message env from m)
  unfolding process_message
  process_message-Evolves env m = bind-Evolves from R h.normal _ _ h.same λ byzantine.
      bind-Evolves from R h.normal _ _ h.same λ _.
        bind-Evolves from R h.normal _ _ h.same
          λ allowed. bind-Evolves from R h.normal _ _ h.same λ _. dispatch-Evolves env m
