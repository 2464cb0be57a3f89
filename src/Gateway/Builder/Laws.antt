-- ===== src/Gateway/Builder/Laws.antt =====
-- What an admitted call satisfies, whatever its arguments.
use hermes_sdlc_agents.Prelude.{
  ◌≡◌, refl, String, Bool, true, false, not, ◌&&◌, ◌||◌, ◌⊎◌, Option, some, List, [], ◌∷◌, ◌==◌,
  eq_iff, any_of, All, ok, >>=-eq-ok, require-eq-ok, ok-injective, subst, arith,
}
use hermes_sdlc_agents.Prelude.Json.{Json, Fields, get}
use hermes_sdlc_agents.Prelude.Table.{lookup, lookup-All}
use hermes_sdlc_agents.Gateway.Authority.{
  ActionSpec, InvocationContext, builder_actions, canonical_args_hash,
}
use hermes_sdlc_agents.Gateway.Builder.{
  optional_string, repository, branch_of, paths, is_agent_ref, text_is, is_protected,
  require_branch, require_pull_request, require_dispatch, or_denied, admitted_context,
  builder_invocation_context,
}
use Prim.Native.String

-- The tools that change something.
abbrev pub is_mutating : String → Bool
is_mutating tool =
    tool == "create_branch"
    || tool == "push_files"
    || tool == "create_pull_request"
    || tool == "actions_run_trigger"

mutation-is_mutating :
    (tool : String) (spec : ActionSpec)
    → lookup tool builder_actions ≡ some spec
    → spec.mutation ≡ is_mutating tool
mutation-is_mutating tool spec h =
    lookup-All (λ name s. s.mutation ≡ is_mutating name) tool builder_actions
      (refl, (refl, (refl, (refl, (refl, (refl, (refl, (refl, (refl, (refl, tt)))))))))) h

All-unprotected :
    (p : String → Bool) (xs : List String) → any_of p xs ≡ false → All (λ x. p x ≡ false) xs
unfolding any_of
All-unprotected p [] h = tt
All-unprotected p (x ∷ xs) h = (ground arith, All-unprotected p xs (ground arith))

or_denied-eq-ok : (o : Option ActionSpec) (s : ActionSpec) → or_denied o ≡ ok s → o ≡ some s
unfolding or_denied
or_denied-eq-ok o s h = ground arith

module _ (tool default_branch : String) (args : Fields) where
  require_branch-eq-ok :
      (b : Option String) {c : Option String}
      → require_branch tool b ≡ ok c
      → (c ≡ b) × ((tool == "create_branch" || tool == "push_files") ≡ true → is_agent_ref b ≡ true)
  unfolding require_branch
  require_branch-eq-ok b h = (ground arith, ground arith)

  require_pull_request-eq-ok :
      (b : Option String) {c : Option String}
      → require_pull_request tool default_branch args b ≡ ok c
      → (((tool == "create_pull_request") ≡ false) × (c ≡ b))
        ⊎ (((tool == "create_pull_request") ≡ true)
            × (is_agent_ref c ≡ true)
            × (text_is (optional_string (get args "base")) default_branch ≡ true))
  unfolding require_pull_request
  require_pull_request-eq-ok b h = ground arith

  require_dispatch-eq-ok :
      (b : Option String) {c : Option String}
      → require_dispatch tool args b ≡ ok c
      → (((tool == "actions_run_trigger") ≡ false) × (c ≡ b))
        ⊎ (((tool == "actions_run_trigger") ≡ true) × (is_agent_ref c ≡ true))
  unfolding require_dispatch
  require_dispatch-eq-ok b h = ground arith

module _ (sha256 : String → String) (dumps : Json → String) (fnmatch : String → String → Bool)
    (agent_id run_id tool : String) (args : Fields) (configured default_branch : String)
    (patterns : List String) where
  -- What admission guarantees of a call's context.
  pub record IsAdmitted (c : InvocationContext) : Type 0 where
    pub spec : ActionSpec
    pub listed : lookup tool builder_actions ≡ some spec
    pub in_scope : (c.repository ≡ configured) × (repository args ≡ ok configured)
    pub caller : (c.agent_id ≡ agent_id) × (c.run_id ≡ run_id) × (c.role ≡ "builder")
    pub tool_named : c.tool_id ≡ String.◌++◌ "github:" tool
    pub authority :
        (c.capability ≡ spec.capability)
        × (c.category ≡ spec.category)
        × (c.github_permissions ≡ spec.github_permissions)
    pub hashed : c.args_hash ≡ canonical_args_hash sha256 dumps tool args
    pub touched : c.paths ≡ paths args
    pub prefixed : spec.mutation ≡ true → is_agent_ref c.branch ≡ true
    pub based :
        (tool == "create_pull_request") ≡ true
        → text_is (optional_string (get args "base")) default_branch ≡ true
    pub unprotected :
        spec.mutation ≡ true → All (λ p. is_protected fnmatch p patterns ≡ false) (paths args)

  admit :
      (spec : ActionSpec) (repo : String) (b b' b'' : Option String)
      → lookup tool builder_actions ≡ some spec
      → repository args ≡ ok repo
      → (repo == configured) ≡ true
      → require_branch tool (branch_of tool args) ≡ ok b
      → require_pull_request tool default_branch args b ≡ ok b'
      → require_dispatch tool args b' ≡ ok b''
      → not (spec.mutation && any_of (λ path. is_protected fnmatch path patterns) (paths args))
        ≡ true
      → IsAdmitted (admitted_context sha256 dumps agent_id run_id tool args spec repo b'')
  admit spec repo b b' b'' found named same eb eb' eb'' clean = record {
    spec = spec;
    listed = found;
    in_scope = (here, subst (λ r. repository args ≡ ok r) here named);
    caller = (refl, refl, refl);
    tool_named = refl;
    authority = (refl, refl, refl);
    hashed = refl;
    touched = refl;
    prefixed = λ m. ground (
      arith,
      mutation-is_mutating tool spec found,
      require_branch-eq-ok tool default_branch args (branch_of tool args) eb,
      require_pull_request-eq-ok tool default_branch args b eb',
      require_dispatch-eq-ok tool default_branch args b' eb'',
    );
    based = λ t. ground (arith, require_pull_request-eq-ok tool default_branch args b eb');
    unprotected = λ m. All-unprotected _ _ (ground arith);
  }
    where
      here : repo ≡ configured
      here = (eq_iff repo configured).0 same

  -- Every admitted call is for a listed tool on the configured repository, with the capability,
  -- category and permissions of that tool's entry; a call that changes something is on a branch
  -- that starts with `agent/`, a pull request goes to the default branch, and no path of a call
  -- that changes something is protected. The context carries the caller and the arguments' hash.
  pub builder_invocation_context-IsAdmitted :
      (c : InvocationContext)
      → builder_invocation_context sha256 dumps fnmatch agent_id run_id tool args configured
          default_branch patterns
        ≡ ok c
      → IsAdmitted c
  unfolding builder_invocation_context
  builder_invocation_context-IsAdmitted c h =
      let (spec, found, h) = >>=-eq-ok (or_denied (lookup tool builder_actions)) _ h in
      let (repo, named, h) = >>=-eq-ok (repository args) _ h in
      let (same, h) = require-eq-ok (repo == configured) _ _ h in
      let (b, eb, h) = >>=-eq-ok (require_branch tool (branch_of tool args)) _ h in
      let (b', eb', h) = >>=-eq-ok (require_pull_request tool default_branch args b) _ h in
      let (b'', eb'', h) = >>=-eq-ok (require_dispatch tool args b') _ h in
      let (clean, h) =
        require-eq-ok
          (not (spec.mutation && any_of (λ path. is_protected fnmatch path patterns) (paths args)))
          _ _ h in
      subst IsAdmitted (ok-injective h)
        (admit spec repo b b' b'' (or_denied-eq-ok _ spec found) named same eb eb' eb'' clean)
