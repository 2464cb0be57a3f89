-- ===== src/Gate/Hooks/Blocked.antt =====
-- Which calls are blocked, by the risk of the call alone.
use hermes_sdlc_agents.Prelude.{
  ℕ, String, true, false, Option, ◌==◌, ◌≡◌, ◌≢◌, ◌↔◌, ◌⊎◌, inl, inr, ◌≤◌, refl, arith, Bool-cases,
  leb, is_some,
}
use hermes_sdlc_agents.Prelude.Json.{Json, Fields}
use hermes_sdlc_agents.Gate.{
  Runtime, Risk, low, critical, risk_rank, at_least_high, mode, enforce, block_level,
}
use hermes_sdlc_agents.Gate.Classify.{
  Classified, classify_action, weighed, by_name, by_protected, by_branch, by_effect, has_word,
  is_read, irreversible_words, critical_words, protected_re, tool_key, searched,
}
use hermes_sdlc_agents.Gate.Proposals.{Proposal, Proposals}
use hermes_sdlc_agents.Gate.Hooks.{judged, verdict, on_pre_tool_call, is_mismatch}

module _ (py : Runtime) where
  by_name_read : (name : String) → is_read name ≡ true → (by_name name).category == "read" ≡ true
  unfolding by_name
  by_name_read name h = rw (h) refl

  by_name_low : (name : String) → ((by_name name).risk ≡ low) ↔ (is_read name ≡ true)
  unfolding by_name
  by_name_low name = ground arith

  by_name_critical :
      (name : String)
      → ((by_name name).risk ≡ critical)
        ↔ ((is_read name ≡ false) × (has_word critical_words name ≡ true))
  unfolding by_name
  by_name_critical name = ground arith

  at_least_high_low : (risk : Risk) → at_least_high risk ≢ low
  at_least_high_low risk = ground arith

  at_least_high_critical : (risk : Risk) → (at_least_high risk ≡ critical) ↔ (risk ≡ critical)
  at_least_high_critical risk = ground arith

  at_least_high_rank : (risk : Risk) → 2 ≤ risk_rank (at_least_high risk)
  at_least_high_rank risk = ground arith

  le→leb : (a b : ℕ) → a ≤ b → leb a b ≡ true
  le→leb a b h = ground arith

  by_protected_iff :
      (text : String) (c : Classified)
      → (((by_protected py text c).risk ≡ low)
          ↔ ((c.risk ≡ low) × (py.search protected_re text ≡ false)))
        × (((by_protected py text c).risk ≡ critical) ↔ (c.risk ≡ critical))
        × ((by_protected py text c).category ≡ c.category)
  unfolding by_protected
  by_protected_iff text c = ground (arith, at_least_high_low c.risk, at_least_high_critical c.risk)

  by_branch_iff :
      (text : String) (c : Classified)
      → ((c.risk ≡ low) → c.category == "read" ≡ true)
      → (((by_branch py text c).risk ≡ low) ↔ (c.risk ≡ low))
        × (((by_branch py text c).risk ≡ critical) ↔ (c.risk ≡ critical))
  unfolding by_branch
  by_branch_iff text c h = ground (arith, at_least_high_low c.risk, at_least_high_critical c.risk)

  by_effect_iff :
      (name : String) (c : Classified)
      → (((by_effect py name c).risk ≡ low)
          ↔ ((c.risk ≡ low) × (has_word irreversible_words name ≡ false)))
        × (((by_effect py name c).risk ≡ critical)
            ↔ ((has_word irreversible_words name ≡ true) ⊎ (c.risk ≡ critical)))
  unfolding by_effect
  by_effect_iff name c = ground arith

  weighed_iff :
      (name text : String)
      → (((weighed py name text).risk ≡ low) ↔ (
          (is_read name ≡ true)
          × (py.search protected_re text ≡ false)
          × (has_word irreversible_words name ≡ false)))
        × (((weighed py name text).risk ≡ critical) ↔ (
            (has_word irreversible_words name ≡ true)
            ⊎ ((is_read name ≡ false) × (has_word critical_words name ≡ true))))
  unfolding weighed
  weighed_iff name text =
      let (low_p, critical_p, same) = by_protected_iff text (by_name name) in
      let (low_b, critical_b) =
        by_branch_iff text (by_protected py text (by_name name))
          (λ e. rw (same) (by_name_read name ((by_name_low name).0 ((low_p.0 e).0)))) in
      let (low_e, critical_e) =
        by_effect_iff name (by_branch py text (by_protected py text (by_name name))) in
      ground (arith, by_name_low name, by_name_critical name)

  -- A call with a name is of low risk exactly if its name begins as that of a read, holds no
  -- irreversible word, and no protected target is found in its text; it is critical exactly if its
  -- name holds an irreversible word, or a privileged one without beginning as that of a read.
  pub classify_action_iff :
      (tool_name : String) (args : Json)
      → (tool_key py tool_name == "") ≡ false
      → (((classify_action py tool_name args).risk ≡ low) ↔ (
          (is_read (tool_key py tool_name) ≡ true)
          × (py.search protected_re (searched py (tool_key py tool_name) args) ≡ false)
          × (has_word irreversible_words (tool_key py tool_name) ≡ false)))
        × (((classify_action py tool_name args).risk ≡ critical) ↔ (
            (has_word irreversible_words (tool_key py tool_name) ≡ true)
            ⊎ ((is_read (tool_key py tool_name) ≡ false)
                × (has_word critical_words (tool_key py tool_name) ≡ true))))
  unfolding classify_action
  classify_action_iff tool_name args h =
      rw (h) (weighed_iff (tool_key py tool_name) (searched py (tool_key py tool_name) args))

  module _ (now : ℕ → String) where
    -- What does not match what the model proposed is of high risk at least.
    pub judged_high :
        (c : Classified) (p : Option Proposal) (args_hash : String)
        → is_mismatch p args_hash ≡ true
        → 2 ≤ risk_rank (judged py now c p args_hash).risk
    judged_high c p args_hash h = rw (h) (at_least_high_rank c.risk)

    pub judged_blocked :
        (c : Classified) (p : Option Proposal) (args_hash : String)
        → mode py ≡ enforce
        → risk_rank (block_level py) ≤ risk_rank (judged py now c p args_hash).risk
        → (judged py now c p args_hash).blocked ≡ true
    judged_blocked c p args_hash enforced reached =
        rw (enforced) (
          le→leb (risk_rank (block_level py)) (risk_rank (judged py now c p args_hash).risk)
            reached)

    module _ (kwargs : Fields) (s : Proposals) where
      pub on_pre_tool_call-blocked :
          is_some (on_pre_tool_call py now kwargs s).0 ≡ (verdict py now kwargs s).blocked
      unfolding on_pre_tool_call
      on_pre_tool_call-blocked = elim (Bool-cases (verdict py now kwargs s).blocked) [
        | inl e ↦ rw (e) refl
        | inr e ↦ rw (e) refl
      ]
