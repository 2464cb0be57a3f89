-- ===== src/Gateway/Store/Spending.antt =====
-- What `consume_execution_grant` spends.
use hermes_sdlc_agents.Prelude.{
  refl, All-mem, ap, eq_iff, Option, keep, Bool-cases, inr, some-injective, ltb, inl, subst, [],
  eq_refl, Memᴰ, is_some, arith, first, any_of, or_else, ◌<◌, ◌≤◌, List, ◌≡◌, String, ℕ, All, none,
  some, true, false, ◌∷◌,
}
use hermes_sdlc_agents.Prelude.Rows.{keep-All, keep_some, any_of-mem, rowcount}
use hermes_sdlc_agents.Gateway.Core.Sorting.{sort_by_nonempty, sort_by-All}
use hermes_sdlc_agents.Gateway.Store.{human, Store, Grant, grant_matches, has_execution_grant}
use hermes_sdlc_agents.Gateway.Store.Grants.{
  is_live, oldest_match, spend_found, consume_execution_grant, spend,
}
use hermes_sdlc_agents.Gateway.Authority.{InvocationContext}
use hermes_sdlc_agents.Gateway.Core.{sort_by}
use hermes_sdlc_agents.Gateway.Store.Calls.{IsWellFormed}

module _ (now : ℕ) (c : InvocationContext) where
  abbrev IsMatch : List Grant → Grant → Type 0
  IsMatch grants g = Memᴰ g grants × (grant_matches now c g ≡ true)

  oldest_match-IsMatch :
      (grants : List Grant) → (g : Grant) → oldest_match now c grants ≡ some g → IsMatch grants g
  unfolding oldest_match
  oldest_match-IsMatch grants g h =
      head_of _ (sort_by-All _ (IsMatch grants) _ (keep-All (grant_matches now c) grants)) h
    where
      head_of : (gs : List Grant) → All (IsMatch grants) gs → first gs ≡ some g → IsMatch grants g
      head_of [] a e = cc
      head_of (x ∷ gs) a e = subst (IsMatch grants) (some-injective _ _ e) a.0

  oldest_match-none :
      (grants : List Grant)
      → oldest_match now c grants ≡ none
      → any_of (grant_matches now c) grants ≡ false
  unfolding oldest_match
  oldest_match-none grants h = elim (Bool-cases (any_of (grant_matches now c) grants)) [
    | inr e ↦ e
    | inl e ↦
        let (y, ys, k) = keep_some (grant_matches now c) grants e in
        absurd (empty_sort (keep (grant_matches now c) grants) y ys k h)
  ]
    where
      empty_sort :
          (gs : List Grant) (y : Grant) (ys : List Grant)
          → gs ≡ y ∷ ys
          → first (sort_by (λ a b. ltb a.created_at b.created_at) gs) ≡ none
          → ⊥
      empty_sort [] y ys k e = cc
      empty_sort (g ∷ gs) y ys k e = sort_by_nonempty _ g gs e

  match_live : (g : Grant) → grant_matches now c g ≡ true → is_live g.grant_id g ≡ true
  unfolding grant_matches
  match_live g h = ground (arith, eq_refl g.grant_id)

  match_unspent : (g : Grant) → grant_matches now c g ≡ true → g.consumed ≡ false
  unfolding grant_matches
  match_unspent g h = ground arith

  consume_by :
      (s : Store) (o : Option Grant)
      → oldest_match now c s.execution_grants ≡ o
      → consume_execution_grant now c s ≡ spend_found now o s
  unfolding consume_execution_grant
  consume_by s o e = ap (λ o. spend_found now o s) e

  has_by :
      (s : Store) → has_execution_grant now c s ≡ any_of (grant_matches now c) s.execution_grants
  unfolding has_execution_grant
  has_by s = refl

pub spend_token :
    (now : ℕ) (id token : String) (s : Store) → (spend now id s).0 ≡ some token → id ≡ token
unfolding spend
spend_token now id token s h = ground arith

-- At this time the grant can be spent on this call: it has the call's agent, run, tool, capability,
-- repository, branch and hash of arguments, no branch counting as the empty one; it is not consumed and
-- not expired.
pub record IsLiveFor (now : ℕ) (c : InvocationContext) (g : Grant) : Type 0 where
  pub agent : g.agent_id ≡ c.agent_id
  pub run : g.run_id ≡ c.run_id
  pub tool : g.tool_id ≡ c.tool_id
  pub capability : g.capability ≡ c.capability
  pub repository : g.repository ≡ c.repository
  pub branch : or_else g.branch "" ≡ or_else c.branch ""
  pub arguments : g.args_hash ≡ c.args_hash
  pub unconsumed : g.consumed ≡ false
  pub unexpired : now < g.expires_at

match-IsLiveFor :
    (now : ℕ) (c : InvocationContext) (g : Grant) → grant_matches now c g ≡ true → IsLiveFor now c g
unfolding grant_matches
match-IsLiveFor now c g h = record {
  agent = (eq_iff _ _).0 (ground arith);
  run = (eq_iff _ _).0 (ground arith);
  tool = (eq_iff _ _).0 (ground arith);
  capability = (eq_iff _ _).0 (ground arith);
  repository = (eq_iff _ _).0 (ground arith);
  branch = (eq_iff _ _).0 (ground arith);
  arguments = (eq_iff _ _).0 (ground arith);
  unconsumed = ground arith;
  unexpired = ground arith;
}

-- What can be spent on a call later can be spent on it now.
pub earlier-has :
    (now later : ℕ) (c : InvocationContext) (s : Store) (g : Grant)
    → now ≤ later
    → Memᴰ g s.execution_grants
    → IsLiveFor later c g
    → has_execution_grant now c s ≡ true
unfolding grant_matches has_execution_grant
earlier-has now later c s g soon m live = any_of-mem (grant_matches now c) s.execution_grants m (
    ground (
      arith,
      soon,
      live.unexpired,
      live.unconsumed,
      (eq_iff _ _).1 live.agent,
      (eq_iff _ _).1 live.run,
      (eq_iff _ _).1 live.tool,
      (eq_iff _ _).1 live.capability,
      (eq_iff _ _).1 live.repository,
      (eq_iff _ _).1 live.branch,
      (eq_iff _ _).1 live.arguments,
    ))

-- In a database that is well formed, the token of a spent grant is the id of a stored grant of a human
-- with the agent, run, tool, capability, repository, branch and hash of arguments of the call, which
-- was not consumed and not expired.
pub consume_execution_grant_sound :
    (now : ℕ) (c : InvocationContext) (s : Store) (token : String)
    → IsWellFormed s
    → (consume_execution_grant now c s).0 ≡ some token
    → (g : Grant) × Memᴰ g s.execution_grants
      × IsLiveFor now c g
      × (g.grant_id ≡ token)
      × (g.authority_source ≡ human)
unfolding spend_found
consume_execution_grant_sound now c s token v h = found (oldest_match now c s.execution_grants) refl
  where
    found :
        (o : Option Grant)
        → oldest_match now c s.execution_grants ≡ o
        → (g : Grant) × Memᴰ g s.execution_grants
          × IsLiveFor now c g
          × (g.grant_id ≡ token)
          × (g.authority_source ≡ human)
    found none e = absurd (cc (consume_by now c s none e, h))
    found (some g) e =
        let (m, t) = oldest_match-IsMatch now c s.execution_grants g e in
        (
          g,
          m,
          match-IsLiveFor now c g t,
          spend_token now g.grant_id token s (rw (consume_by now c s (some g) e) at h),
          All-mem _ s.execution_grants v.human_only m (match_unspent now c g t),
        )

spend_succeeds :
    (now : ℕ) (s : Store) (g : Grant)
    → IsWellFormed s
    → Memᴰ g s.execution_grants
    → is_live g.grant_id g ≡ true
    → is_some (spend now g.grant_id s).0 ≡ true
unfolding spend
spend_succeeds now s g v m live =
    rw
      (rowcount (λ h. h.grant_id) (is_live g.grant_id) g.grant_id s.execution_grants
        (λ x h. ground (arith, eq_iff x.grant_id g.grant_id)) v.grants
        (any_of-mem (is_live g.grant_id) s.execution_grants m live))
      refl

-- In a database that is well formed a call is let through exactly if `has_execution_grant` holds.
pub consume_execution_grant_complete :
    (now : ℕ) (c : InvocationContext) (s : Store)
    → IsWellFormed s
    → is_some (consume_execution_grant now c s).0 ≡ has_execution_grant now c s
unfolding spend_found
consume_execution_grant_complete now c s v = found (oldest_match now c s.execution_grants) refl
  where
    found :
        (o : Option Grant)
        → oldest_match now c s.execution_grants ≡ o
        → is_some (consume_execution_grant now c s).0 ≡ has_execution_grant now c s
    found none e =
        rw (consume_by now c s none e, has_by now c s, oldest_match-none now c s.execution_grants e)
          refl
    found (some g) e =
        let (m, t) = oldest_match-IsMatch now c s.execution_grants g e in
        rw
          (
            consume_by now c s (some g) e,
            has_by now c s,
            any_of-mem (grant_matches now c) s.execution_grants m t,
            spend_succeeds now s g v m (match_live now c g t),
          )
          refl

-- A call that spends nothing leaves the database as it was.
pub consume_execution_grant-none :
    (now : ℕ) (c : InvocationContext) (s : Store)
    → IsWellFormed s
    → (consume_execution_grant now c s).0 ≡ none
    → (consume_execution_grant now c s).1 ≡ s
unfolding spend_found
consume_execution_grant-none now c s v h = found (oldest_match now c s.execution_grants) refl
  where
    found :
        (o : Option Grant)
        → oldest_match now c s.execution_grants ≡ o
        → (consume_execution_grant now c s).1 ≡ s
    found none e = rw (consume_by now c s none e) refl
    found (some g) e =
        let (m, t) = oldest_match-IsMatch now c s.execution_grants g e in
        absurd (
          cc (
            h,
            ap (λ (p : Option String × Store). is_some (p.0)) (consume_by now c s (some g) e),
            spend_succeeds now s g v m (match_live now c g t),
          ))
