-- ===== src/Gateway/Service/Intent/Judged.antt =====
-- Every tool that `resolve_intent` shows was given, was classified by the judge, and is allowed.
use hermes_sdlc_agents.Prelude.{
  ◌∙◌, ℕ, String, Bool, true, false, Option, none, some, List, [], ◌∷◌, ◌≡◌, refl, ap, sym, subst,
  ◌⊎◌, ◌&&◌, not, ltb, Bool-cases, inl, inr, take, map, All, All-imp, All-mem, All-self, Memᴰ,
  find_first, Result, ok, raise, >>=-eq-ok, ok-injective,
}
use hermes_sdlc_agents.Prelude.Json.{Fields, get}
use hermes_sdlc_agents.Gateway.Core.{Floats, assess_risk, mark, mark_dominated}
use hermes_sdlc_agents.Gateway.Models.{
  RiskCategory, rank, ToolDescriptor, ToolSemantics, RankedTool, Resolution, ApprovalRequest,
}
use hermes_sdlc_agents.Gateway.Resolver.{
  Question, request_id, decide_request, effective_category, is_authorized, resolve_marked, resolve,
}
use hermes_sdlc_agents.Gateway.Resolver.Safety.{IsAllowed, resolve_shown}
use hermes_sdlc_agents.Gateway.Store.{Store, GovernanceSnapshot, snapshot, has_unconsumed_once}
use hermes_sdlc_agents.Gateway.Store.Calls.{Call, run}
use hermes_sdlc_agents.Gateway.Store.Writes.{StoreError}
use hermes_sdlc_agents.Gateway.Judge.{Reader, JudgeError, classify}
use hermes_sdlc_agents.Gateway.Service.{text}
use hermes_sdlc_agents.Gateway.Service.Resolve.{
  Resolved, resolved, question, is_selected, consumed, pended, use_once, ask_or_use,
  settle_approval, resolve_ranked,
}
use hermes_sdlc_agents.Gateway.Service.Intent.{
  IntentReply, settled, optional_text, parse_tools, or_discover, rank_tool, rank_tools, checked,
  from_judge, max_tools, intent_answer, resolve_intent,
}

checked-eq {ℓ} : {A : Type ℓ} (m : Result String A) {a : A} → checked m ≡ ok a → m ≡ ok a
checked-eq (ok b) h = ap ok (ok-injective h)
checked-eq (raise e) h = cc

-- No tool is allowed once, or one for which the store has an unused approval of this intent.
abbrev pub IsOnce : (String → String) → String → Store → List String → Type 0
IsOnce sha256 intent looked once =
    (once ≡ [])
    ⊎ ((tool : String) × (once ≡ tool ∷ [])
        × (has_unconsumed_once (request_id sha256 intent tool) tool looked ≡ true))

-- The request for an approval has the id of its intent and its tool.
abbrev IsOwn : (String → String) → String → Option ApprovalRequest → Type 0
IsOwn sha256 intent none = Unit
IsOwn sha256 intent (some a) = a.request_id ≡ request_id sha256 intent a.requested_tool_id

module _ {F : Type 0} where
  decide_request-IsOwn :
      (q : Question) (sha256 : String → String) (o selected : Option (RankedTool F))
      → IsOwn sha256 q.intent (decide_request q sha256 o selected).1
  unfolding decide_request
  decide_request-IsOwn q sha256 none selected = tt
  decide_request-IsOwn q sha256 (some item) selected =
      elim (Bool-cases (
        ltb (rank q.max_auto_category) (rank (effective_category q item))
        && not (is_authorized q item))) [
          | inl e ↦ rw (e) refl
          | inr e ↦ elim (Bool-cases (is_authorized q item)) [
            | inl f ↦ rw (e, f) tt
            | inr f ↦ rw (e, f) tt
          ]
        ]

  resolve-IsOwn :
      (fl : Floats F) (sha256 : String → String) (q : Question) (ranked : List (RankedTool F))
      → IsOwn sha256 q.intent (resolve fl sha256 q ranked).approval_required
  unfolding resolve resolve_marked
  resolve-IsOwn fl sha256 q ranked = elim (Bool-cases q.emergency_stop) [
    | inl e ↦ rw (e) tt
    | inr e ↦ rw (e) (decide_request-IsOwn q sha256 _ _)
  ]

  module _ (fl : Floats F) (sha256 : String → String) (now : ℕ)
      (before_look before_consume : List Call) (ceiling : RiskCategory) (intent : String)
      (requested : Option String) (ranked : List (RankedTool F)) where
    -- The resolution is that of the ranked tools, with the tools that are allowed once.
    abbrev IsResolution : GovernanceSnapshot → Store → Resolved F → Type 0
    IsResolution snap looked (resolved r) =
        (once : List String) × IsOnce sha256 intent looked once
        × (r ≡ resolve fl sha256 (question ceiling intent requested once snap) ranked)
    IsResolution snap looked _ = Unit

    use_once-IsResolution :
        (snap : GovernanceSnapshot) (request : ApprovalRequest) (s : Store)
        → request.request_id ≡ request_id sha256 intent request.requested_tool_id
        → has_unconsumed_once request.request_id request.requested_tool_id s ≡ true
        → IsResolution snap s
            (use_once fl sha256 now before_look before_consume ceiling intent requested ranked snap
              request s).0
    unfolding use_once
    use_once-IsResolution snap request s own has =
        let once = request.requested_tool_id ∷ [] in
        let r = resolve fl sha256 (question ceiling intent requested once snap) ranked in
        let found = inr (
          request.requested_tool_id,
          refl,
          subst (λ id. has_unconsumed_once id request.requested_tool_id s ≡ true) own has,
        ) in
        elim (Bool-cases (is_selected r.selected request.requested_tool_id)) [
          | inl e ↦ rw (e) (by_spent found _)
          | inr e ↦ rw (e) (once, found, refl)
        ]
      where
        by_spent :
            IsOnce sha256 intent s (request.requested_tool_id ∷ [])
            → (p : Bool × Store)
            → IsResolution snap s
                (consumed
                  (resolve fl sha256
                    (question ceiling intent requested (request.requested_tool_id ∷ []) snap)
                    ranked)
                  p).0
        by_spent found (true, t) = (request.requested_tool_id ∷ [], found, refl)
        by_spent found (false, t) = tt

    settle-IsResolution :
        (snap : GovernanceSnapshot) (a : Option ApprovalRequest) (s : Store)
        → IsOwn sha256 intent a
        → IsResolution snap
            (run sha256 before_look s)
            (settle_approval fl sha256 now before_look before_consume ceiling intent requested
              ranked snap
              (resolve fl sha256 (question ceiling intent requested [] snap) ranked)
              a
              s).0
    unfolding settle_approval ask_or_use
    settle-IsResolution snap none s own = ([], inl refl, refl)
    settle-IsResolution snap (some request) s own = by_item (find_first _ ranked)
      where
        by_write :
            (t : Store) (m : Result StoreError Store)
            → IsResolution snap
                (run sha256 before_look s)
                (pended
                  (resolve fl sha256 (question ceiling intent requested [] snap) ranked)
                  t
                  m).0
        by_write t (ok u) = ([], inl refl, refl)
        by_write t (raise e) = tt

        by_item :
            (o : Option (RankedTool F))
            → IsResolution snap
                (run sha256 before_look s)
                (ask_or_use fl sha256 now before_look before_consume ceiling intent requested ranked
                  snap request
                  (resolve fl sha256 (question ceiling intent requested [] snap) ranked)
                  o
                  (run sha256 before_look s)).0
        by_item none = tt
        by_item (some item) =
            elim (Bool-cases (
              has_unconsumed_once request.request_id request.requested_tool_id
                (run sha256 before_look s))) [
                  | inl e ↦
                      rw (e) (use_once-IsResolution snap request (run sha256 before_look s) own e)
                  | inr e ↦ rw (e) (by_write (run sha256 before_look s) _)
                ]

    resolve_ranked-IsResolution :
        (s : Store)
        → IsResolution
            (snapshot s)
            (run sha256 before_look s)
            (resolve_ranked fl sha256 now before_look before_consume ceiling intent requested ranked
              s).0
    unfolding resolve_ranked
    resolve_ranked-IsResolution s =
        settle-IsResolution (snapshot s) _ s
          (resolve-IsOwn fl sha256 (question ceiling intent requested [] (snapshot s)) ranked)

  settled-injective : {a b : Resolved F} → Path (IntentReply F) (settled a) (settled b) → a ≡ b
  settled-injective h = cc

  module _ (rd : Reader F) (ask : String → ToolDescriptor → Result String String) where
    -- The tool is one of these, and its assessment is made of what the judge classified it as.
    abbrev pub IsJudged : String → List ToolDescriptor → RankedTool F → Type 0
    IsJudged intent tools item =
        Memᴰ item.tool tools
        × ((semantics : ToolSemantics F) × (classify rd ask intent item.tool
              ≡ ok (semantics, item.intent_fit))
            × (item.assessment ≡ assess_risk item.tool semantics))

    rank_tool-IsJudged :
        (intent : String) (all : List ToolDescriptor) (tool : ToolDescriptor) {item : RankedTool F}
        → Memᴰ tool all
        → rank_tool rd ask intent tool ≡ ok item
        → IsJudged intent all item
    unfolding rank_tool
    rank_tool-IsJudged intent all tool m h =
        let (answer, e, h) = >>=-eq-ok (from_judge (classify rd ask intent tool)) _ h in
        subst (IsJudged intent all) (ok-injective h) (m, (answer.0, given _ e refl, refl))
      where
        given :
            (c : Result JudgeError (ToolSemantics F × F)) {a : ToolSemantics F × F}
            → from_judge c ≡ ok a
            → classify rd ask intent tool ≡ c
            → classify rd ask intent tool ≡ ok a
        given (ok b) e f = f ∙ ap ok (ok-injective e)
        given (raise b) e f = cc

    rank_tools-IsJudged :
        (intent : String) (all tools : List ToolDescriptor) {ranked : List (RankedTool F)}
        → All (λ tool. Memᴰ tool all) tools
        → rank_tools rd ask intent tools ≡ ok ranked
        → All (IsJudged intent all) ranked
    unfolding rank_tools rank_tool
    rank_tools-IsJudged intent all [] m h = subst (All (IsJudged intent all)) (ok-injective h) tt
    rank_tools-IsJudged intent all (tool ∷ tools) m h =
        let (item, e, h) = >>=-eq-ok (rank_tool rd ask intent tool) _ h in
        let (rest, f, h) = >>=-eq-ok (rank_tools rd ask intent tools) _ h in
        subst (All (IsJudged intent all)) (ok-injective h)
          (rank_tool-IsJudged intent all tool m.0 e, rank_tools-IsJudged intent all tools m.1 f)

    module _ (fl : Floats F) (cs : List (RankedTool F)) where
      marked-IsJudged :
          (intent : String) (tools : List ToolDescriptor) (ts : List (RankedTool F))
          → All (IsJudged intent tools) ts
          → All (IsJudged intent tools) (map (mark fl cs) ts)
      unfolding mark
      marked-IsJudged intent tools [] h = tt
      marked-IsJudged intent tools (t ∷ ts) h = (h.0, marked-IsJudged intent tools ts h.1)

    module _ (discover : String → Result String (List ToolDescriptor)) (fl : Floats F)
        (sha256 : String → String) (now : ℕ) (before_look before_consume : List Call)
        (ceiling : RiskCategory) where
      -- What stands behind a resolution: the intent and the tools that the request or the catalogs
      -- gave, at most 80 of them, and what was allowed once by an approval of this intent.
      pub record IsAnswered (body : Fields) (s : Store) (r : Resolution F) : Type 0 where
        pub intent : String
        pub requested : Option String
        pub given : List ToolDescriptor
        pub tools : List ToolDescriptor
        pub once : List String
        pub intent_read : text "intent" 2000 false (get body "intent") ≡ ok intent
        pub requested_read : optional_text 300 (get body "requested_tool_id") ≡ ok requested
        pub given_read : parse_tools (get body "tools") ≡ ok given
        pub once_approved : IsOnce sha256 intent (run sha256 before_look s) once
        pub tools_found : or_discover discover intent body given ≡ ok tools
        pub shown :
            All
              (λ item.
                IsJudged intent (take max_tools tools) item
                × IsAllowed (question ceiling intent requested once (snapshot s)) item)
              r.visible_tools

      module _ (body : Fields) (s t : Store) (r : Resolution F) where
        shown_tools :
            (intent : String) (requested : Option String) (tools : List ToolDescriptor)
            (ranked : List (RankedTool F)) (m : Resolved F)
            → All (IsJudged intent tools) ranked
            → IsResolution fl sha256 now before_look before_consume ceiling intent requested ranked
                (snapshot s)
                (run sha256 before_look s)
                m
            → m ≡ resolved r
            → (once : List String) × IsOnce sha256 intent (run sha256 before_look s) once
              × All
                  (λ item.
                    IsJudged intent tools item
                    × IsAllowed (question ceiling intent requested once (snapshot s)) item)
                  r.visible_tools
        unfolding mark_dominated
        shown_tools intent requested tools ranked m judged_ same e =
            let (once, approved, is_r) =
              subst
                (IsResolution fl sha256 now before_look before_consume ceiling intent requested
                  ranked (snapshot s) (run sha256 before_look s))
                e same in
            let q = question ceiling intent requested once (snapshot s) in
            let marked = marked-IsJudged fl ranked intent tools ranked judged_ in
            (
              once,
              approved,
              subst
                  (λ (x : Resolution F).
                    All (λ item. IsJudged intent tools item × IsAllowed q item) x.visible_tools)
                  (sym is_r)
                  (All-imp _ _ _
                    (λ item known. (
                      All-mem (IsJudged intent tools) (mark_dominated fl ranked) marked known.0,
                      known.1.0,
                    ))
                    (resolve_shown fl sha256 q ranked)),
            )

        intent_answer-IsAnswered :
            (intent : String) (requested : Option String) (given tools : List ToolDescriptor)
            → text "intent" 2000 false (get body "intent") ≡ ok intent
            → optional_text 300 (get body "requested_tool_id") ≡ ok requested
            → parse_tools (get body "tools") ≡ ok given
            → or_discover discover intent body given ≡ ok tools
            → intent_answer rd ask discover fl sha256 now before_look before_consume ceiling intent
                requested tools s
              ≡ ok (settled (resolved r), t)
            → IsAnswered body s r
        intent_answer-IsAnswered intent requested given [] e₁ e₂ e₃ e₄ h = cc
        intent_answer-IsAnswered intent requested given (tool ∷ tools) e₁ e₂ e₃ e₄ h =
            let first_tools = take max_tools (tool ∷ tools) in
            let (ranked, e₅, h) = >>=-eq-ok (rank_tools rd ask intent first_tools) _ h in
            let (once, approved, all) =
              shown_tools intent requested first_tools ranked _
                (rank_tools-IsJudged intent first_tools first_tools (All-self first_tools) e₅)
                (resolve_ranked-IsResolution fl sha256 now before_look before_consume ceiling intent
                  requested ranked s)
                (settled-injective (ap (λ p. p.0) (ok-injective h))) in
            record {
              intent = intent;
              requested = requested;
              given = given;
              tools = tool ∷ tools;
              once = once;
              once_approved = approved;
              intent_read = e₁;
              requested_read = e₂;
              given_read = e₃;
              tools_found = e₄;
              shown = all;
            }

        -- Every tool that a resolution shows is among the first 80 of the tools that the request or the
        -- catalogs gave, has the assessment and the fit of what the judge classified it as, and is within
        -- the ceiling, excepted, or allowed once: then the store had an unused approval of this intent
        -- and this tool when it was looked for.
        pub resolve_intent-IsAnswered :
            resolve_intent rd ask discover fl sha256 now before_look before_consume ceiling body s
              ≡ ok (settled (resolved r), t)
            → IsAnswered body s r
        unfolding resolve_intent
        resolve_intent-IsAnswered h =
            let (intent, e₁, h) =
              >>=-eq-ok (checked (text "intent" 2000 false (get body "intent"))) _ h in
            let (requested, e₂, h) =
              >>=-eq-ok (checked (optional_text 300 (get body "requested_tool_id"))) _ h in
            let (given, e₃, h) = >>=-eq-ok (checked (parse_tools (get body "tools"))) _ h in
            let (tools, e₄, h) = >>=-eq-ok (or_discover discover intent body given) _ h in
            intent_answer-IsAnswered intent requested given tools (checked-eq _ e₁)
              (checked-eq _ e₂) (checked-eq _ e₃) e₄ h
