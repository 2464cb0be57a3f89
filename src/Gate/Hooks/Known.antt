-- ===== src/Gate/Hooks/Known.antt =====
-- What the proposals of a session hold: only what responses of that session proposed. So a call that
-- runs at a block level of at most "high" was proposed, with the hash of its arguments.
use mathlib.Core.Bool.{false≢true}
use native.Mathlib.Nat.{le_trans}
use mathlib.Core.List.{reverse}
use hermes_sdlc_agents.Prelude.{
  length-append, All-mem, All-self, All, ◌∙◌, ℕ, ◌+◌, String, true, false, Option, none, some, List,
  [], ◌∷◌, ◌==◌, ◌≡◌, ◌⊎◌, inl, inr, ◌≤◌, refl, sym, ap, arith, Bool-cases, is_some, eq_iff, Memᴰ,
  length, subst, Result, ok, raise,
}
use hermes_sdlc_agents.Prelude.Json.{Fields}
use hermes_sdlc_agents.Gate.Hooks.Remembered.{
  proposals_of-remember, append_bounded-All, reverse-All, match_among-IsMatch,
}
use hermes_sdlc_agents.Gate.Hooks.{
  response_event, Event, Posted, verdict, text_at, found, is_mismatch, on_pre_tool_call, propose,
  proposed, proposal_of, on_post_api_request,
}
use hermes_sdlc_agents.Gate.{Runtime, risk_rank, mode, enforce, block_level, value_at, stable_hash}
use hermes_sdlc_agents.Gate.Classify.{classify_action}
use hermes_sdlc_agents.Gate.Calls.{Call, HookError, extract_tool_calls}
use hermes_sdlc_agents.Gate.Proposals.{
  Proposal, Proposals, remember, max_proposals, proposals_of, match_proposal,
}
use hermes_sdlc_agents.Gate.Hooks.Blocked.{judged_high, judged_blocked, on_pre_tool_call-blocked}

-- A call that a response proposed, with the arguments of the hook that saw the response.
pub record Proposed : Type 0 where
  pub kwargs : Fields
  pub call : Call

module _ (py : Runtime) (now : ℕ → String) where
  abbrev pub session_in : Fields → String
  session_in kwargs = text_at py now kwargs "session_id"

  -- The proposals after these were remembered in this order, as the hooks do.
  unfoldable pub replay : Proposals → List Proposed → Proposals
  unfolding remember proposal_of
  replay s [] = s
  replay s (e ∷ es) = replay (remember (session_in e.kwargs) (proposal_of py now e.call) s) es

  module _ (all : List Proposed) where
    abbrev pub IsFrom : String → Proposal → Type 0
    IsFrom k p =
        (e : Proposed) × Memᴰ e all × (session_in e.kwargs ≡ k) × (proposal_of py now e.call ≡ p)

    abbrev IsKnown : Proposals → Type 0
    IsKnown s = (k : String) → All (IsFrom k) (proposals_of s k)

    remember-IsKnown :
        (e : Proposed) (s : Proposals)
        → Memᴰ e all
        → IsKnown s
        → IsKnown (remember (session_in e.kwargs) (proposal_of py now e.call) s)
    remember-IsKnown e s m h k =
        let k' = session_in e.kwargs in
        subst (All (IsFrom k)) (sym (proposals_of-remember k' k (proposal_of py now e.call) s))
          (elim (Bool-cases (k' == k)) [
            | inl same ↦
                let at = (eq_iff k' k).0 same in
                rw (same) (
                  append_bounded-All (IsFrom k) max_proposals (proposals_of s k')
                    (proposal_of py now e.call)
                    (subst (λ j. All (IsFrom j) (proposals_of s k')) at (h k')) (e, m, at, refl))
            | inr other ↦ rw (other) (h k)
          ])

    replay-IsKnown :
        (es : List Proposed) (s : Proposals)
        → All (λ e. Memᴰ e all) es
        → IsKnown s
        → IsKnown (replay s es)
    unfolding replay
    replay-IsKnown [] s m h = h
    replay-IsKnown (e ∷ es) s m h = replay-IsKnown es _ m.1 (remember-IsKnown e s m.0 h)

  -- Some call was proposed in the session of `kwargs` with the hash of the arguments that it has, and
  -- with its id or its name.
  abbrev pub IsProposed : List Proposed → Fields → Type 0
  IsProposed all kwargs =
      (e : Proposed) × Memᴰ e all
      × (session_in e.kwargs ≡ session_in kwargs)
      × (stable_hash py e.call.args ≡ stable_hash py (value_at kwargs "args"))
      × ((e.call.tool_call_id ≡ text_at py now kwargs "tool_call_id")
          ⊎ (e.call.tool_name ≡ text_at py now kwargs "tool_name"))

  matched_IsProposed :
      (all : List Proposed) (kwargs : Fields) (p : Proposal)
      → match_proposal
          (replay [] all)
          (session_in kwargs)
          (text_at py now kwargs "tool_call_id")
          (text_at py now kwargs "tool_name")
          (stable_hash py (value_at kwargs "args"))
        ≡ some p
      → p.args_hash ≡ stable_hash py (value_at kwargs "args")
      → IsProposed all kwargs
  unfolding match_proposal proposal_of
  matched_IsProposed all kwargs p h same =
      let known = replay-IsKnown all all [] (All-self all) (λ k. tt) (session_in kwargs) in
      let (m, match) =
        match_among-IsMatch (reverse (proposals_of (replay [] all) (session_in kwargs))) _ _ _ h in
      let (e, listed, session, made) =
        All-mem (IsFrom all (session_in kwargs)) _
          (reverse-All (IsFrom all (session_in kwargs)) _ known) m in
      (
        e,
        listed,
        session,
        ap (λ q. q.args_hash) made ∙ same,
        elim match [
          | inl by_call ↦ inl (ap (λ q. q.tool_call_id) made ∙ by_call)
          | inr by_tool ↦ inr (ap (λ q. q.tool_name) made ∙ by_tool)
        ],
      )

  -- In the mode "enforce" with a block level of at most "high", whatever was remembered in whatever
  -- order, a call runs only if it was proposed in its session with arguments of the same hash, and with
  -- its id or its name.
  pub on_pre_tool_call-IsProposed :
      (all : List Proposed) (kwargs : Fields)
      → mode py ≡ enforce
      → risk_rank (block_level py) ≤ 2
      → is_some (on_pre_tool_call py now kwargs (replay [] all)).0 ≡ false
      → IsProposed all kwargs
  unfolding verdict
  on_pre_tool_call-IsProposed all kwargs enforced level runs =
      elim (Bool-cases (is_mismatch (found py now kwargs (replay [] all)) hash)) [
        | inl wrong ↦ absurd (false≢true (sym runs ∙ stopped wrong))
        | inr right ↦ by_match (found py now kwargs (replay [] all)) refl right
      ]
    where
      hash : String
      hash = stable_hash py (value_at kwargs "args")

      stopped :
          is_mismatch (found py now kwargs (replay [] all)) hash ≡ true
          → is_some (on_pre_tool_call py now kwargs (replay [] all)).0 ≡ true
      stopped wrong =
          let c = classify_action py (text_at py now kwargs "tool_name") (value_at kwargs "args") in
          on_pre_tool_call-blocked py now kwargs (replay [] all)
          ∙ judged_blocked py now c (found py now kwargs (replay [] all)) hash enforced (
              le_trans level
                (judged_high py now c (found py now kwargs (replay [] all)) hash wrong))

      by_match :
          (p : Option Proposal)
          → found py now kwargs (replay [] all) ≡ p
          → is_mismatch p hash ≡ false
          → IsProposed all kwargs
      by_match none e right = cc
      by_match (some p) e right =
          matched_IsProposed all kwargs p e ((eq_iff p.args_hash hash).0 (ground arith))

  abbrev pub proposed_by : Fields → List Call → List Proposed
  proposed_by kwargs [] = []
  proposed_by kwargs (c ∷ cs) = record { kwargs = kwargs; call = c } ∷ proposed_by kwargs cs

  abbrev pub IsPosted : Fields → Proposals → Posted → Result HookError (List Call) → Type 0
  IsPosted kwargs s out (raise e) =
      (out.proposals ≡ s) × (length out.events ≡ 1) × (out.raised ≡ some e)
  IsPosted kwargs s out (ok cs) =
      (out.proposals ≡ replay s (proposed_by kwargs cs))
      × (length out.events ≡ 1 + length cs)
      × (out.raised ≡ none)

  propose-replay :
      (kwargs : Fields) (i : ℕ) (cs : List Call) (s : Proposals) (events : List Event)
      → ((propose py now kwargs i cs s events).proposals ≡ replay s (proposed_by kwargs cs))
        × (length (propose py now kwargs i cs s events).events ≡ length events + length cs)
        × ((propose py now kwargs i cs s events).raised ≡ none)
  unfolding propose replay
  propose-replay kwargs i [] s events = (refl, omega arith, refl)
  propose-replay kwargs i (c ∷ cs) s events =
      let (same, count, fine) = propose-replay kwargs (i + 1) cs _ _ in
      (same, omega (arith, count, length-append events _), fine)

  -- The hook of a response remembers the calls of the response in its session, in their order, and
  -- emits an event for the response and one for each call; where the calls cannot be read, it raises
  -- after the first event and remembers none.
  pub on_post_api_request-replay :
      (kwargs : Fields) (s : Proposals)
      → IsPosted kwargs s
          (on_post_api_request py now kwargs s)
          (extract_tool_calls py (value_at kwargs "response"))
  unfolding on_post_api_request
  on_post_api_request-replay kwargs s =
      by_calls (extract_tool_calls py (value_at kwargs "response"))
    where
      by_calls :
          (m : Result HookError (List Call))
          → IsPosted kwargs s
              (proposed py now kwargs s
                (response_event py now kwargs (value_at kwargs "response") ∷ [])
                m)
              m
      by_calls (raise e) = (refl, refl, refl)
      by_calls (ok cs) =
          let (same, count, fine) = propose-replay kwargs 1 cs s _ in (same, count, fine)
