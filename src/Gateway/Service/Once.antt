-- ===== src/Gateway/Service/Once.antt =====
-- What lets a tool above the ceiling be selected.
use hermes_sdlc_agents.Prelude.Rows.{any_of-update_where_self, keep_none}
use hermes_sdlc_agents.Prelude.{
  ◌⊎◌, ltb, ℕ, String, Bool, true, false, Option, none, some, List, [], ◌∷◌, ◌==◌, Result, ok,
  raise, refl, ◌≡◌, ap, sym, subst, inl, inr, Bool-cases, any_of, arith, ◌&&◌, not, ◌∙◌, length,
}
use hermes_sdlc_agents.Gateway.Store.{
  has_unconsumed_once, snapshot, GovernanceSnapshot, Store, AllowOnce,
}
use hermes_sdlc_agents.Gateway.Service.Resolve.{
  pended, Resolved, is_selected, question, use_once, settle_approval, ask_or_use, resolve_ranked,
  consumed, resolved,
}
use hermes_sdlc_agents.Gateway.Store.Writes.{StoreError}
use hermes_sdlc_agents.Gateway.Store.Calls.{run, Call}
use hermes_sdlc_agents.Gateway.Store.Grants.{consume_once}
use hermes_sdlc_agents.Gateway.Core.{Floats}
use hermes_sdlc_agents.Gateway.Models.{RiskCategory, RankedTool, ApprovalRequest, Resolution, rank}
use hermes_sdlc_agents.Gateway.Resolver.{
  Question, resolve, resolve_marked, decide_request, is_authorized, effective_category,
}

-- The rows that the approval of a request made.
abbrev pub is_unused : ApprovalRequest → AllowOnce → Bool
is_unused request r =
    r.request_id == request.request_id && r.tool_id == request.requested_tool_id && not r.consumed

module _ {F : Type 0} where
  decide_request-none :
      (q : Question) (sha256 : String → String) (o selected : Option (RankedTool F))
      {a : ApprovalRequest}
      → (decide_request q sha256 o selected).1 ≡ some a
      → (decide_request q sha256 o selected).0 ≡ none
  unfolding decide_request
  decide_request-none q sha256 none selected h = cc
  decide_request-none q sha256 (some item) selected h =
      elim (Bool-cases (
        ltb (rank q.max_auto_category) (rank (effective_category q item))
        && not (is_authorized q item))) [
          | inl e ↦ rw (e) refl
          | inr e ↦ elim (Bool-cases (is_authorized q item)) [
            | inl f ↦ absurd (cc (rw (e, f) at h))
            | inr f ↦ absurd (cc (rw (e, f) at h))
          ]
        ]

  resolve-none :
      (fl : Floats F) (sha256 : String → String) (q : Question) (ranked : List (RankedTool F))
      {a : ApprovalRequest}
      → (resolve fl sha256 q ranked).approval_required ≡ some a
      → (resolve fl sha256 q ranked).selected ≡ none
  unfolding resolve resolve_marked
  resolve-none fl sha256 q ranked h = elim (Bool-cases q.emergency_stop) [
    | inl e ↦ absurd (cc (rw e at h))
    | inr e ↦ rw (e) (decide_request-none q sha256 _ _ (rw e at h))
  ]

-- A call that succeeds found an unused approval, and leaves none.
consume_once-true :
    (now : ℕ) (request : ApprovalRequest) (s : Store)
    → (consume_once now request.request_id request.requested_tool_id s).0 ≡ true
    → (any_of (is_unused request) s.allow_once ≡ true)
      × (any_of
            (is_unused request)
            (consume_once now request.request_id request.requested_tool_id s).1.allow_once
          ≡ false)
unfolding consume_once
consume_once-true now request s h = (
  found (Bool-cases (any_of (is_unused request) s.allow_once)),
  any_of-update_where_self (is_unused request) _ s.allow_once (λ r. ground arith),
)
  where
    found :
        (any_of (is_unused request) s.allow_once ≡ true)
          ⊎ (any_of (is_unused request) s.allow_once ≡ false)
        → any_of (is_unused request) s.allow_once ≡ true
    found (inl e) = e
    found (inr e) =
        let l = ap length (keep_none (is_unused request) s.allow_once e) in
        absurd (ground (arith, h, l))

-- The approval of the request was there and is used up.
abbrev pub IsUsed : ApprovalRequest → Store → Store → Type 0
IsUsed request s t =
    (any_of (is_unused request) s.allow_once ≡ true)
    × (any_of (is_unused request) t.allow_once ≡ false)

module _ {F : Type 0} where
  consumed-IsUsed :
      (r q : Resolution F) (now : ℕ) (request : ApprovalRequest) (s : Store)
      → (consumed r (consume_once now request.request_id request.requested_tool_id s)).0
        ≡ resolved q
      → IsUsed request s
          (consumed r (consume_once now request.request_id request.requested_tool_id s)).1
  consumed-IsUsed r q now request s h =
      by_result (consume_once now request.request_id request.requested_tool_id s) refl h
    where
      by_result :
          (o : Bool × Store)
          → consume_once now request.request_id request.requested_tool_id s ≡ o
          → (consumed r o).0 ≡ resolved q
          → IsUsed request s (consumed r o).1
      by_result (false, t) e k = cc
      by_result (true, t) e k =
          let (there, gone) = consume_once-true now request s (ap (λ (x : Bool × Store). x.0) e) in
          (
            there,
            sym (ap (λ (x : Bool × Store). any_of (is_unused request) (x.1).allow_once) e) ∙ gone,
          )

  module _ (fl : Floats F) (sha256 : String → String) (now : ℕ)
      (before_look before_consume : List Call) (ceiling : RiskCategory) (intent : String)
      (requested : Option String) (ranked : List (RankedTool F)) where
    use_once-IsUsed :
        (snap : GovernanceSnapshot) (request : ApprovalRequest) (s : Store) (r : Resolution F)
        → (use_once fl sha256 now before_look before_consume ceiling intent requested ranked snap
            request s).0
          ≡ resolved r
        → is_selected r.selected request.requested_tool_id ≡ true
        → IsUsed request
            (run sha256 before_consume s)
            (use_once fl sha256 now before_look before_consume ceiling intent requested ranked snap
              request s).1
    unfolding use_once
    use_once-IsUsed snap request s r h chosen =
        let q =
          resolve fl sha256
            (question ceiling intent requested (request.requested_tool_id ∷ []) snap) ranked in
        elim (Bool-cases (is_selected q.selected request.requested_tool_id)) [
          | inl e ↦
              rw (e) (consumed-IsUsed q r now request (run sha256 before_consume s) (rw e at h))
          | inr e ↦ absurd (other q e (rw e at h))
        ]
      where
        other :
            (q : Resolution F)
            → is_selected q.selected request.requested_tool_id ≡ false
            → Path (Resolved F) (resolved q) (resolved r)
            → ⊥
        other q e k = cc (e, chosen, k)

    ask_or_use-IsUsed :
        (snap : GovernanceSnapshot) (request : ApprovalRequest) (r0 r : Resolution F)
        (o : Option (RankedTool F)) (s : Store)
        → r0.selected ≡ none
        → (ask_or_use fl sha256 now before_look before_consume ceiling intent requested ranked snap
            request r0 o s).0
          ≡ resolved r
        → is_selected r.selected request.requested_tool_id ≡ true
        → IsUsed request
            (run sha256 before_consume s)
            (ask_or_use fl sha256 now before_look before_consume ceiling intent requested ranked
              snap request r0 o s).1
    unfolding ask_or_use
    ask_or_use-IsUsed snap request r0 r none s empty h chosen = cc
    ask_or_use-IsUsed snap request r0 r (some item) s empty h chosen =
        elim (Bool-cases (has_unconsumed_once request.request_id request.requested_tool_id s)) [
          | inl e ↦ rw (e) (use_once-IsUsed snap request s r (rw e at h) chosen)
          | inr e ↦ absurd (pending _ (rw e at h))
        ]
      where
        pending :
            (m : Result StoreError Store) → Path (Resolved F) (pended r0 s m).0 (resolved r) → ⊥
        pending (raise e) k = cc
        pending (ok t) k =
            let same : r0.selected ≡ r.selected = cc (k) in
            cc (
              subst (λ x. is_selected x request.requested_tool_id ≡ true) (sym same ∙ empty) chosen)

    settle_once :
        (snap : GovernanceSnapshot) (request : ApprovalRequest) (r0 : Resolution F)
        (o : Option ApprovalRequest) (s : Store) (r : Resolution F)
        → o ≡ some request
        → r0.selected ≡ none
        → (settle_approval fl sha256 now before_look before_consume ceiling intent requested ranked
            snap r0 o s).0
          ≡ resolved r
        → is_selected r.selected request.requested_tool_id ≡ true
        → IsUsed request
            (run sha256 before_consume (run sha256 before_look s))
            (settle_approval fl sha256 now before_look before_consume ceiling intent requested
              ranked snap r0 o s).1
    unfolding settle_approval
    settle_once snap request r0 o s r needs empty h chosen = rw (needs) (
        ask_or_use-IsUsed snap request r0 r _ (run sha256 before_look s) empty (rw needs at h)
          chosen)

    -- When a request asks for a tool that needs an approval, then that tool is selected only if an
    -- unused approval of this request was in the store when it was spent, whatever other requests did
    -- meanwhile; afterwards none is left, so that one approval selects the tool once.
    pub resolve_ranked_once :
        (s : Store) (request : ApprovalRequest) (r : Resolution F)
        → (resolve fl sha256
            (question ceiling intent requested [] (snapshot s))
            ranked).approval_required
          ≡ some request
        → (resolve_ranked fl sha256 now before_look before_consume ceiling intent requested ranked
            s).0
          ≡ resolved r
        → is_selected r.selected request.requested_tool_id ≡ true
        → IsUsed request
            (run sha256 before_consume (run sha256 before_look s))
            (resolve_ranked fl sha256 now before_look before_consume ceiling intent requested ranked
              s).1
    unfolding resolve_ranked settle_approval
    resolve_ranked_once s request r needs h chosen =
        let q = question ceiling intent requested [] (snapshot s) in
        settle_once (snapshot s) request (resolve fl sha256 q ranked) _ s r needs
          (resolve-none fl sha256 q ranked needs) h chosen
