-- ===== src/Gate/Hooks/Matched.antt =====
-- A call that a response has just proposed is no mismatch.
use mathlib.Core.Bool.{false≢true}
use mathlib.Core.List.{reverse, reverse-reverse, reverse-append, append_assoc, append-nil}
use hermes_sdlc_agents.Prelude.{
  eq_refl, ◌∙◌, ℕ, ◌+◌, String, Bool, true, false, some, List, [], ◌∷◌, ◌++◌, ◌==◌, ◌≡◌, ◌≤◌, refl,
  sym, ap, subst, arith, inl, inr, Bool-cases, Option-cases, Memᴰ, map, length, All, All-mem,
  find_first, find_first-eq-some, find_first-eq-none, ltb, eq_iff, ok, length-append,
}
use hermes_sdlc_agents.Prelude.Json.{Fields}
use hermes_sdlc_agents.Gate.{Runtime, value_at, stable_hash}
use hermes_sdlc_agents.Gate.Calls.{Call, extract_tool_calls}
use hermes_sdlc_agents.Gate.Proposals.{
  Proposal, Proposals, remember, append_bounded, trimmed, max_proposals, proposals_of,
  match_proposal, match_among, has_id, is_same,
}
use hermes_sdlc_agents.Gate.Hooks.{text_at, verdict, proposal_of, on_post_api_request}
use hermes_sdlc_agents.Gate.Hooks.Known.{
  session_in, replay, proposed_by, IsPosted, on_post_api_request-replay,
}
use hermes_sdlc_agents.Gate.Hooks.Remembered.{proposals_of-remember, reverse-All}

-- The proposals end with these.
abbrev EndsWith : List Proposal → List Proposal → Type 0
EndsWith ys ps = (xs : List Proposal) × (ps ≡ xs ++ ys)

trimmed_short : (limit : ℕ) (ps : List Proposal) → length ps ≤ limit → trimmed limit ps ≡ ps
trimmed_short limit [] h = refl
trimmed_short limit (p ∷ ps) h = ground arith

trimmed-EndsWith :
    (limit : ℕ) (xs ys : List Proposal) → length ys ≤ limit → EndsWith ys (trimmed limit (xs ++ ys))
trimmed-EndsWith limit [] ys h = ([], trimmed_short limit ys h)
trimmed-EndsWith limit (x ∷ xs) ys h = elim (Bool-cases (ltb limit (length (x ∷ (xs ++ ys))))) [
  | inl e ↦ rw (e) (xs, refl)
  | inr e ↦ rw (e) (x ∷ xs, refl)
]

append_bounded-EndsWith :
    (limit : ℕ) (ys ps : List Proposal) (p : Proposal)
    → EndsWith ys ps
    → length ys + 1 ≤ limit
    → EndsWith (ys ++ p ∷ []) (append_bounded limit ps p)
unfolding append_bounded
append_bounded-EndsWith limit ys ps p (xs, e) h =
    subst (λ zs. EndsWith (ys ++ p ∷ []) (trimmed limit zs))
      (sym (append_assoc xs ys (p ∷ [])) ∙ ap (λ zs. zs ++ p ∷ []) (sym e))
      (trimmed-EndsWith limit xs (ys ++ p ∷ []) (omega (arith, length-append ys (p ∷ []))))

find_first-append :
    (t : Proposal → Bool) (xs ys : List Proposal) {p : Proposal}
    → find_first t xs ≡ some p
    → find_first t (xs ++ ys) ≡ some p
unfolding find_first
find_first-append t [] ys h = cc
find_first-append t (x ∷ xs) ys h = elim (Bool-cases (t x)) [
  | inl e ↦ rw (e) (rw e at h)
  | inr e ↦ rw (e) (find_first-append t xs ys (rw e at h))
]

-- What is in a list and passes the test keeps the search from failing, from either end.
find_first-reverse :
    (t : Proposal → Bool) (ps : List Proposal) {p : Proposal}
    → Memᴰ p ps
    → t p ≡ true
    → (q : Proposal) × (find_first t (reverse ps) ≡ some q)
find_first-reverse t ps m h = elim (Option-cases (find_first t (reverse ps))) [
  | inl e ↦
      let none_passes =
        subst (All (λ x. t x ≡ false)) (reverse-reverse ps)
          (reverse-All (λ x. t x ≡ false) (reverse ps) (find_first-eq-none t (reverse ps) e)) in
      absurd (false≢true (sym (All-mem (λ x. t x ≡ false) ps none_passes m) ∙ h))
  | inr q ↦ q
]

mem_append_right : (xs ys : List Proposal) {p : Proposal} → Memᴰ p ys → Memᴰ p (xs ++ ys)
mem_append_right [] ys m = m
mem_append_right (x ∷ xs) ys m = Memᴰ.tail (mem_append_right xs ys m)

module _ (py : Runtime) (now : ℕ → String) where
  abbrev proposals_from : List Call → List Proposal
  proposals_from cs = map (proposal_of py now) cs

  replay-EndsWith :
      (kwargs : Fields) (k : String) (cs : List Call) (s : Proposals) (ys : List Proposal)
      → (session_in py now kwargs == k) ≡ true
      → length ys + length cs ≤ max_proposals
      → EndsWith ys (proposals_of s k)
      → EndsWith
          (ys ++ proposals_from cs)
          (proposals_of (replay py now s (proposed_by py now kwargs cs)) k)
  unfolding replay
  replay-EndsWith kwargs k [] s ys same h w = rw (append-nil ys) w
  replay-EndsWith kwargs k (c ∷ cs) s ys same h w =
      let p = proposal_of py now c in
      let s' = remember (session_in py now kwargs) p s in
      let at = (eq_iff (session_in py now kwargs) k).0 same in
      let step : EndsWith (ys ++ p ∷ []) (proposals_of s' k) =
        subst (EndsWith (ys ++ p ∷ []))
          (sym (proposals_of-remember (session_in py now kwargs) k p s ∙ rw (same, at) refl))
          (append_bounded-EndsWith max_proposals ys (proposals_of s k) p w (omega arith)) in
      subst (λ zs. EndsWith zs (proposals_of (replay py now s' (proposed_by py now kwargs cs)) k))
        (append_assoc ys (p ∷ []) (proposals_from cs))
        (replay-EndsWith kwargs k cs s' (ys ++ p ∷ []) same
          (omega (arith, length-append ys (p ∷ []))) step)

  -- Of two calls of the list with one id, the arguments are the same.
  abbrev pub HasUniqueIds : List Call → Call → Type 0
  HasUniqueIds cs c =
      All (λ d. d.tool_call_id ≡ c.tool_call_id → stable_hash py d.args ≡ stable_hash py c.args) cs

  module _ (c : Call) where
    abbrev HasArgs : Proposal → Type 0
    HasArgs p = p.args_hash ≡ stable_hash py c.args

    proposals_from-mem :
        (cs : List Call) → Memᴰ c cs → Memᴰ (proposal_of py now c) (proposals_from cs)
    proposals_from-mem [] m = elim m [ ]
    proposals_from-mem (d ∷ cs) (Memᴰ.head e) = Memᴰ.head (ap (proposal_of py now) e)
    proposals_from-mem (d ∷ cs) (Memᴰ.tail m) = Memᴰ.tail (proposals_from-mem cs m)

    proposals_from-HasArgs :
        (cs : List Call)
        → HasUniqueIds cs c
        → All (λ p. p.tool_call_id ≡ c.tool_call_id → HasArgs p) (proposals_from cs)
    unfolding proposal_of
    proposals_from-HasArgs [] h = tt
    proposals_from-HasArgs (d ∷ cs) h = (h.0, proposals_from-HasArgs cs h.1)

    -- The newest proposal with the id of the call has its arguments.
    by_id :
        (xs : List Proposal) (cs : List Call)
        → Memᴰ c cs
        → HasUniqueIds cs c
        → (p : Proposal) × (find_first (has_id c.tool_call_id) (reverse (xs ++ proposals_from cs))
            ≡ some p)
          × HasArgs p
    unfolding proposal_of
    by_id xs cs m unique_ids =
        let ps = proposals_from cs in
        let (q, e) =
          find_first-reverse (has_id c.tool_call_id) ps (proposals_from-mem cs m)
            (eq_refl c.tool_call_id) in
        let (listed, t) = find_first-eq-some (has_id c.tool_call_id) (reverse ps) e in
        (
          q,
          rw (reverse-append xs ps) (find_first-append _ (reverse ps) (reverse xs) e),
          All-mem (λ p. p.tool_call_id ≡ c.tool_call_id → HasArgs p) (reverse ps)
              (reverse-All _ ps (proposals_from-HasArgs cs unique_ids)) listed
              ((eq_iff q.tool_call_id c.tool_call_id).0 t),
        )

    by_args :
        (xs : List Proposal) (cs : List Call)
        → Memᴰ c cs
        → (p : Proposal) × (find_first
              (is_same c.tool_name (stable_hash py c.args))
              (reverse (xs ++ proposals_from cs))
            ≡ some p)
          × HasArgs p
    unfolding proposal_of
    by_args xs cs m =
        let t = is_same c.tool_name (stable_hash py c.args) in
        let (q, e) =
          find_first-reverse t (xs ++ proposals_from cs)
            (mem_append_right xs (proposals_from cs) (proposals_from-mem cs m))
            (rw (eq_refl c.tool_name, eq_refl (stable_hash py c.args)) refl) in
        let (listed, same) = find_first-eq-some t (reverse (xs ++ proposals_from cs)) e in
        (q, e, (eq_iff q.args_hash (stable_hash py c.args)).0 (ground arith))

    match_among-HasArgs :
        (xs : List Proposal) (cs : List Call)
        → Memᴰ c cs
        → HasUniqueIds cs c
        → (p : Proposal) × (match_among
              (reverse (xs ++ proposals_from cs))
              c.tool_call_id
              c.tool_name
              (stable_hash py c.args)
            ≡ some p)
          × HasArgs p
    unfolding match_among
    match_among-HasArgs xs cs m unique_ids = elim (Bool-cases (c.tool_call_id == "")) [
      | inl e ↦ let (p, found_, args) = by_args xs cs m in (p, rw (e, found_) refl, args)
      | inr e ↦ let (p, found_, args) = by_id xs cs m unique_ids in (p, rw (e, found_) refl, args)
    ]

    -- When a response with at most 64 calls proposed a call, no other with its id and other arguments,
    -- then this call in the same session is no mismatch, whatever was proposed before the response.
    pub on_post_api_request_matched :
        (posted kwargs : Fields) (s : Proposals) (cs : List Call)
        → extract_tool_calls py (value_at posted "response") ≡ ok cs
        → length cs ≤ 64
        → Memᴰ c cs
        → HasUniqueIds cs c
        → session_in py now posted ≡ session_in py now kwargs
        → text_at py now kwargs "tool_call_id" ≡ c.tool_call_id
        → text_at py now kwargs "tool_name" ≡ c.tool_name
        → stable_hash py (value_at kwargs "args") ≡ stable_hash py c.args
        → (verdict py now kwargs (on_post_api_request py now posted s).proposals).mismatch ≡ false
    unfolding verdict match_proposal
    on_post_api_request_matched posted kwargs s cs calls few m unique_ids session id name args =
        let left : IsPosted py now posted s (on_post_api_request py now posted s) (ok cs) =
          subst (IsPosted py now posted s (on_post_api_request py now posted s)) calls
            (on_post_api_request-replay py now posted s) in
        let (xs, e) =
          replay-EndsWith posted (session_in py now kwargs) cs s [] (rw (session) (eq_refl _))
            (omega arith) (proposals_of s (session_in py now kwargs), sym (append-nil _)) in
        let (p, found_, same) = match_among-HasArgs xs cs m unique_ids in
        rw (left.0, e, id, name, args, found_, same, eq_refl (stable_hash py c.args)) refl
