-- ===== src/Gate/Proposals.antt =====
-- The plugin's PROPOSALS, `remember` and `match_proposal`. Each of the two holds the lock once.
use mathlib.Core.List.{reverse}
use hermes_sdlc_agents.Prelude.{
  ℕ, String, Bool, ◌&&◌, Option, none, some, List, [], ◌∷◌, ◌++◌, ◌==◌, length, ltb, or_else,
  find_first, if◌then◌else◌,
}
use hermes_sdlc_agents.Prelude.Table.{lookup, insert}
use hermes_sdlc_agents.Gate.{Risk}

pub record Proposal : Type 0 where
  pub tool_call_id : String
  pub tool_name : String
  pub args_hash : String
  pub risk : Risk
  pub category : String
  pub reasons : List String

abbrev pub Proposals : Type 0
Proposals = List (String × List Proposal)

abbrev pub max_proposals : ℕ
max_proposals = 64

abbrev pub trimmed : ℕ → List Proposal → List Proposal
trimmed limit [] = []
trimmed limit (p ∷ ps) = if ltb limit (length (p ∷ ps)) then ps else p ∷ ps

-- `deque.append` with a `maxlen`.
unfoldable pub append_bounded : ℕ → List Proposal → Proposal → List Proposal
append_bounded limit ps p = trimmed limit (ps ++ p ∷ [])

unfoldable pub proposals_of : Proposals → String → List Proposal
unfolding lookup
proposals_of s session_id = or_else (lookup session_id s) []

unfoldable pub remember : String → Proposal → Proposals → Proposals
unfolding proposals_of append_bounded insert
remember session_id p s =
    insert session_id (append_bounded max_proposals (proposals_of s session_id) p) s

abbrev pub has_id : String → Proposal → Bool
has_id tool_call_id p = p.tool_call_id == tool_call_id

abbrev pub is_same : String → String → Proposal → Bool
is_same tool_name args_hash p = p.tool_name == tool_name && p.args_hash == args_hash

abbrev pub has_name : String → Proposal → Bool
has_name tool_name p = p.tool_name == tool_name

abbrev pub or_found : Option Proposal → Option Proposal → Option Proposal
or_found none other = other
or_found (some p) other = some p

-- `ps` is the deque with its newest first.
unfoldable pub match_among : List Proposal → String → String → String → Option Proposal
unfolding find_first
match_among ps tool_call_id tool_name args_hash =
    or_found (if tool_call_id == "" then none else find_first (has_id tool_call_id) ps)
      (or_found (find_first (is_same tool_name args_hash) ps) (find_first (has_name tool_name) ps))

unfoldable pub match_proposal : Proposals → String → String → String → String → Option Proposal
unfolding match_among proposals_of
match_proposal s session_id tool_call_id tool_name args_hash =
    match_among (reverse (proposals_of s session_id)) tool_call_id tool_name args_hash
