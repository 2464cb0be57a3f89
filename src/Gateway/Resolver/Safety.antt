-- ===== src/Gateway/Resolver/Safety.antt =====
-- What a resolution shows, selects and asks approval for.
use mathlib.Core.Option.{some-injective}
use mathlib.Core.List.{perm_middle}
use hermes_sdlc_agents.Prelude.{
  All-self, subst, All-both, ◌≢◌, ◌≤◌, ◌≡◌, String, Bool, true, false, ◌⊎◌, inl, inr, Option, none,
  some, List, [], ◌∷◌, ◌++◌, Perm, Memᴰ, All, arith, eq_iff, if◌then◌else◌, Bool-cases,
  find_first-eq-some, All-imp, first,
}
use hermes_sdlc_agents.Prelude.Table.{elem}
use hermes_sdlc_agents.Gateway.Models.{RankedTool, rank, tool_id}
use hermes_sdlc_agents.Gateway.Core.{Floats, mark_dominated, before, sort_by}
use hermes_sdlc_agents.Gateway.Core.Sorting.{sort_by-perm, sort_by-All}
use hermes_sdlc_agents.Gateway.Resolver.{
  Question, is_text, partition_by, effective_category, is_authorized, is_eligible, decide_request,
  requested_of, resolve_marked, resolve,
}
use mathlib.Core.List.Perm

partition_by-perm {ℓ} :
    {A : Type ℓ} (p : A → Bool) (xs : List A)
    → Perm ((partition_by p xs).0 ++ (partition_by p xs).1) xs
unfolding partition_by
partition_by-perm p [] = Perm.refl []
partition_by-perm p (x ∷ xs) = elim (Bool-cases (p x)) [
  | inl e ↦ rw (e) (Perm.cons x (partition_by-perm p xs))
  | inr e ↦ rw (e) (
      Perm.trans (perm_middle (partition_by p xs).0 (partition_by p xs).1)
        (Perm.cons x (partition_by-perm p xs)))
]

partition_by-All {ℓ} :
    {A : Type ℓ} (p : A → Bool) (xs : List A)
    → All (λ x. p x ≡ true) (partition_by p xs).0 × All (λ x. p x ≡ false) (partition_by p xs).1
unfolding partition_by
partition_by-All p [] = (tt, tt)
partition_by-All p (x ∷ xs) = elim (Bool-cases (p x)) [
  | inl e ↦ let (yes_all, no_all) = partition_by-All p xs in rw (e) ((e, yes_all), no_all)
  | inr e ↦ let (yes_all, no_all) = partition_by-All p xs in rw (e) (yes_all, (e, no_all))
]

partition_by_keeps {ℓ κ} :
    {A : Type ℓ} (P : A → Type κ) (p : A → Bool) (xs : List A)
    → All P xs
    → All P (partition_by p xs).0
unfolding partition_by
partition_by_keeps P p [] h = tt
partition_by_keeps P p (x ∷ xs) h = elim (Bool-cases (p x)) [
  | inl e ↦ rw (e) (h.0, partition_by_keeps P p xs h.1)
  | inr e ↦ rw (e) (partition_by_keeps P p xs h.1)
]

is_text→some : (o : Option String) (s : String) → is_text o s ≡ true → o ≡ some s
is_text→some none s h = cc
is_text→some (some t) s h = ground (arith, eq_iff s t)

module _ {F : Type 0} (q : Question) where
  -- What lets a tool run without a further approval: its effective category is within the ceiling,
  -- or a human authorised it by name.
  abbrev pub IsAllowed : RankedTool F → Type 0
  IsAllowed t =
      (rank (effective_category q t) ≤ rank q.max_auto_category)
      ⊎ ((elem (tool_id t.tool) q.allowed_once ≡ true)
          ⊎ (elem (tool_id t.tool) q.exception_tools ≡ true))

  -- Undominated, unless a human authorised it and it is the one that was asked for.
  abbrev pub IsPreferred : RankedTool F → Type 0
  IsPreferred t =
      (t.dominated ≡ false)
      ⊎ ((q.requested_tool_id ≡ some (tool_id t.tool)) × (is_authorized q t ≡ true))

  is_eligible-IsAllowed : (t : RankedTool F) → is_eligible q t ≡ true → IsAllowed t × IsPreferred t
  unfolding is_eligible
  is_eligible-IsAllowed t h = ground (arith, is_text→some q.requested_tool_id (tool_id t.tool))

module _ {F : Type 0} (fl : Floats F) (sha256 : String → String) (q : Question) where
  shown :
      (marked : List (RankedTool F))
      → All
          (λ t. Memᴰ t marked × (IsAllowed q t × IsPreferred q t))
          (sort_by (before fl) (partition_by (is_eligible q) marked).0)
  shown marked =
      sort_by-All (before fl) (λ t. Memᴰ t marked × (IsAllowed q t × IsPreferred q t)) _
        (All-both _ _ _
          (partition_by_keeps (λ t. Memᴰ t marked) (is_eligible q) marked (All-self marked))
          (All-imp _ _ _ (is_eligible-IsAllowed q) (partition_by-All (is_eligible q) marked).0))

  -- Whether stopped or not, each candidate, marked unless the stop is on, is either shown or
  -- filtered out, and none is lost or made up.
  resolve-perm :
      (cs : List (RankedTool F))
      → let r = resolve fl sha256 q cs in
        Perm
          (r.visible_tools ++ r.filtered_tools)
          (if q.emergency_stop then cs else mark_dominated fl cs)
  unfolding resolve resolve_marked
  resolve-perm cs = elim (Bool-cases q.emergency_stop) [
    | inl e ↦ rw (e) (Perm.refl cs)
    | inr e ↦ rw (e) (
        Perm.trans
          (Perm.append (sort_by-perm (before fl) (partition_by (is_eligible q) marked).0)
            (Perm.refl (partition_by (is_eligible q) marked).1))
          (partition_by-perm (is_eligible q) marked))
  ]
    where
      marked : List (RankedTool F)
      marked = mark_dominated fl cs

  -- Every tool shown was a candidate, and is allowed and preferred.
  pub resolve_shown :
      (cs : List (RankedTool F))
      → All
          (λ t. Memᴰ t (mark_dominated fl cs) × (IsAllowed q t × IsPreferred q t))
          (resolve fl sha256 q cs).visible_tools
  unfolding resolve resolve_marked
  resolve_shown cs = elim (Bool-cases q.emergency_stop) [
    | inl e ↦ rw (e) tt
    | inr e ↦ rw (e) (shown (mark_dominated fl cs))
  ]

  pub resolve-eq :
      (cs : List (RankedTool F))
      → q.emergency_stop ≡ false
      → resolve fl sha256 q cs ≡ resolve_marked fl sha256 q (mark_dominated fl cs)
  unfolding resolve
  resolve-eq cs off = ground arith

  decide_request_picks :
      (o best : Option (RankedTool F)) (t : RankedTool F)
      → (decide_request q sha256 o best).0 ≡ some t
      → (best ≡ some t) ⊎ ((o ≡ some t) × (is_authorized q t ≡ true))
  unfolding decide_request
  decide_request_picks none best t h = inl h
  decide_request_picks (some r) best t h = ground arith

  stopped :
      (cs : List (RankedTool F)) (t : RankedTool F)
      → q.emergency_stop ≡ true
      → (resolve fl sha256 q cs).selected ≢ some t
  unfolding resolve
  stopped cs t on h = ground arith

  first-All {κ} :
      (P : RankedTool F → Type κ) (xs : List (RankedTool F)) (t : RankedTool F)
      → All P xs
      → first xs ≡ some t
      → P t
  first-All P [] t h e = absurd (cc)
  first-All P (x ∷ xs) t h e = subst P (some-injective _ _ e) h.0

  authorized-IsAllowed : (t : RankedTool F) → is_authorized q t ≡ true → IsAllowed q t
  unfolding is_authorized
  authorized-IsAllowed t h = ground arith

  from_pick :
      (marked : List (RankedTool F)) (t : RankedTool F)
      → (first (sort_by (before fl) (partition_by (is_eligible q) marked).0) ≡ some t)
        ⊎ ((requested_of q marked ≡ some t) × (is_authorized q t ≡ true))
      → Memᴰ t marked × (IsAllowed q t × IsPreferred q t)
  unfolding requested_of
  from_pick marked t (inl e) =
      first-All (λ t. Memᴰ t marked × (IsAllowed q t × IsPreferred q t)) _ t (shown marked) e
  from_pick marked t (inr (e, a)) =
      let (m, same) = find_first-eq-some _ marked e in
      (
        m,
        (authorized-IsAllowed t a, inr (is_text→some q.requested_tool_id (tool_id t.tool) same, a)),
      )

  from_marked :
      (marked : List (RankedTool F)) (t : RankedTool F)
      → (resolve_marked fl sha256 q marked).selected ≡ some t
      → Memᴰ t marked × (IsAllowed q t × IsPreferred q t)
  unfolding resolve_marked
  from_marked marked t h = from_pick marked t (
      decide_request_picks (requested_of q marked)
        (first (sort_by (before fl) (partition_by (is_eligible q) marked).0)) t h)

  -- What is selected was a candidate, with the stop off, and is allowed and preferred.
  resolve_selected :
      (cs : List (RankedTool F)) (t : RankedTool F)
      → (resolve fl sha256 q cs).selected ≡ some t
      → (q.emergency_stop ≡ false)
        × (Memᴰ t (mark_dominated fl cs) × (IsAllowed q t × IsPreferred q t))
  resolve_selected cs t h = elim (Bool-cases q.emergency_stop) [
    | inl on ↦ absurd (stopped cs t on h)
    | inr off ↦ (off, from_marked (mark_dominated fl cs) t (rw (resolve-eq cs off) at h))
  ]
