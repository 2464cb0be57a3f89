-- ===== src/Orchestrator/Snapshot.antt =====
-- status_snapshot.py: the counters and the items of a role that the status server shows. The database
-- is one that was opened and has the schema. `iso` is `_nullable_timestamp` of a stored time, `none`
-- where its text is no time, `utc` is the text of `_utc_now`, and `parse_url` is `urlparse`, `none` where
-- it raises `ValueError`.
pub mod Texts
pub mod Counters
pub mod Public
mod Tests
use Prim.Native.Char.{code}
use Prim.Native.String.{count}
use hermes_sdlc_agents.Prelude.{
  ℕ, suc, String, Bool, true, false, not, ◌&&◌, ◌||◌, Option, none, some, List, [], ◌∷◌, ◌==◌, leb,
  ltb, nat_eq, text_lt, is_some, or_else, keep, length, take, any_of, take_chars, join, pieces,
  words, Result, ok, raise, ◌>>=◌, ◌>>◌, require, if◌then◌else◌,
}
use hermes_sdlc_agents.Prelude.Table.{elem}
use hermes_sdlc_agents.Gateway.Core.{sort_by}
use hermes_sdlc_agents.Orchestrator.Statuses.{valid_roles}
use hermes_sdlc_agents.Orchestrator.Database.{
  Db, Assignment, AgentRun, WorkRow, is_due, is_delayed, with_work_item, count_where,
}
use Prim.Native.String

abbrev pub assignment_statuses : List String
assignment_statuses =
    "PENDING" ∷ "STARTED" ∷ "COMPLETED" ∷ "BLOCKED_CONFIG" ∷ "FAILED_FINAL" ∷ "CANCELLED"
    ∷ "TIMEOUT" ∷ []

abbrev pub run_statuses : List String
run_statuses =
    "ACTIVE" ∷ "COMPLETED" ∷ "FAILED" ∷ "CANCELLED" ∷ "TIMEOUT" ∷ "LOST" ∷ "INVALID_OUTPUT"
    ∷ "STALE_OUTPUT" ∷ []

pub record Url : Type 0 where
  pub scheme : String
  pub hostname : Option String
  pub username : Option String
  pub password : Option String

pub record PublicRun : Type 0 where
  pub hermes_run_id : String
  pub status : String
  pub attempt_number : ℕ
  pub started_at : String

pub record Item : Type 0 where
  pub assignment_key : String
  pub assignment_status : String
  pub provider : String
  pub repository_id : String
  pub external_id : String
  pub title : String
  pub url : String
  pub run : Option PublicRun
  pub next_retry_at : Option String
  pub blocked_reason : Option String
  pub last_error_code : Option String

pub record Queue : Type 0 where
  pub pending_due : ℕ
  pub pending_delayed : ℕ
  pub active : ℕ
  pub blocked : ℕ

pub record Snapshot : Type 0 where
  pub role : String
  pub orchestrator_enabled : Bool
  pub generated_at : String
  pub queue : Queue
  pub items : List Item

abbrev pub is_control : ℕ → Bool
is_control c = ltb c 32 || nat_eq c 127

-- Each control character becomes a space.
unfoldable pub spaced : String → String
spaced String.[] = String.[]
spaced (String.◌∷◌ c s) =
    if is_control (code c) then String.◌∷◌ " " (spaced s) else String.◌∷◌ c (spaced s)

unfoldable pub bounded_text : ℕ → String → String
unfolding spaced pieces words join take_chars
bounded_text maximum value = take_chars maximum (join " " (words (pieces (spaced value))))

abbrev pub max_text_length : ℕ
max_text_length = 500

-- `text if text else None`
unfoldable pub required_text : String → Option String
unfolding bounded_text
required_text value =
    if bounded_text max_text_length value == ""
    then none
    else some (bounded_text max_text_length value)

abbrev pub nullable_text : ℕ → Option String → Option String
nullable_text maximum none = none
nullable_text maximum (some s) = some (bounded_text maximum s)

unfoldable pub has_control_code : String → Bool
has_control_code String.[] = false
has_control_code (String.◌∷◌ c s) = is_control (code c) || has_control_code s

-- `not text`, for a text or `None`.
abbrev pub is_blank : Option String → Bool
is_blank none = true
is_blank (some s) = s == ""

-- `ra.status IN (...) OR ra.status NOT IN (...)`
abbrev pub is_blocked : String → Bool
is_blocked status =
    elem status ("BLOCKED_CONFIG" ∷ "FAILED_FINAL" ∷ "CANCELLED" ∷ "TIMEOUT" ∷ [])
    || not (elem status ("PENDING" ∷ "STARTED" ∷ "COMPLETED" ∷ []))

unfoldable pub queue_of : ℕ → String → List Assignment → Queue
unfolding is_due is_delayed elem
queue_of now role table =
    let rows = keep (λ a. a.role == role) table in
    record {
      pending_due = count_where (λ a. a.status == "PENDING" && is_due now a.next_retry_at) rows;
      pending_delayed =
          count_where (λ a. a.status == "PENDING" && is_delayed now a.next_retry_at) rows;
      active = count_where (λ a. a.status == "STARTED") rows;
      blocked = count_where (λ a. is_blocked a.status) rows;
    }

-- The run is not older than the best so far.
abbrev pub is_latest : Option AgentRun → AgentRun → Bool
is_latest none r = true
is_latest (some best) r = leb best.started_at r.started_at

-- The subquery for the latest run; ids grow in the order of the table.
unfoldable pub latest_run : String → Option AgentRun → List AgentRun → Option AgentRun
latest_run key best [] = best
latest_run key best (r ∷ rs) =
    latest_run key (if r.assignment_key == key && is_latest best r then some r else best) rs

abbrev pub Row : Type 0
Row = Assignment × WorkRow × Option AgentRun

abbrev pub with_run : List AgentRun → List (Assignment × WorkRow) → List Row
with_run runs [] = []
with_run runs ((a, w) ∷ rows) = (a, w, latest_run a.assignment_key none runs) ∷ with_run runs rows

-- The `CASE` of the order.
abbrev pub status_rank : ℕ → Assignment → ℕ
status_rank now a =
    if a.status == "STARTED"
    then 0
    else if is_blocked a.status
    then 1
    else if a.status == "PENDING" && is_due now a.next_retry_at
    then 2
    else if a.status == "PENDING" && is_delayed now a.next_retry_at
    then 3
    else 4

abbrev pub row_time : Row → ℕ
row_time (a, w, some r) = r.started_at
row_time (a, w, none) = or_else a.next_retry_at a.created_at

abbrev pub row_before : ℕ → Row → Row → Bool
row_before now (a, v, q) (b, w, r) =
    let s = row_time (a, v, q) in
    let t = row_time (b, w, r) in
    ltb (status_rank now a) (status_rank now b)
    || (nat_eq (status_rank now a) (status_rank now b)
        && (ltb s t
            || (nat_eq s t
                && (ltb a.updated_at b.updated_at
                    || (nat_eq a.updated_at b.updated_at
                        && text_lt a.assignment_key b.assignment_key)))))

-- `_ITEMS_SQL`
unfoldable pub item_rows : ℕ → String → ℕ → Db → List Row
unfolding with_work_item latest_run is_due is_delayed elem
item_rows now role limit s = take limit (
    sort_by (row_before now) (
      with_run s.agent_runs (
        with_work_item s.work_items
          (keep (λ a. a.role == role && not (a.status == "COMPLETED")) s.role_assignments))))

module _ (iso : ℕ → Option String) (utc : ℕ → String) (parse_url : String → Option Url) where
  abbrev pub times : Option ℕ → Option String
  times none = none
  times (some t) = iso t

  -- A status that is no public one is not shown.
  abbrev pub public_status : String → String
  public_status status = if elem status assignment_statuses then status else "FAILED_FINAL"

  abbrev pub public_run : AgentRun → Option String → Option String → Option PublicRun
  public_run r none started = none
  public_run r (some id) none = none
  public_run r (some id) (some started) =
      if elem r.status run_statuses && leb 1 r.attempt_number
      then some (record {
        hermes_run_id = id;
        status = r.status;
        attempt_number = r.attempt_number;
        started_at = started;
      })
      else none

  unfoldable pub sanitize_run : Option AgentRun → Option PublicRun
  unfolding required_text elem
  sanitize_run none = none
  sanitize_run (some r) = public_run r (required_text r.hermes_run_id) (iso r.started_at)

  abbrev pub is_public_url : Url → Bool
  is_public_url u =
      u.scheme == "https"
      && (not (is_blank u.hostname) && (is_blank u.username && is_blank u.password))

  abbrev pub url_of : String → Option Url → Result String (Option String)
  url_of value none = raise value
  url_of value (some u) = ok (if is_public_url u then some value else none)

  -- `urlparse` may raise.
  unfoldable pub validated_https_url : String → Result String (Option String)
  unfolding has_control_code
  validated_https_url value =
      if ltb max_text_length (count value) || has_control_code value
      then ok none
      else url_of value (parse_url value)

  abbrev pub item_of :
      Row → Option String → Option String → Option String → Option String → Option Item
  item_of (a, w, r) (some key) (some repository) (some external) (some url) = some (record {
    assignment_key = key;
    assignment_status = public_status a.status;
    provider = w.provider;
    repository_id = repository;
    external_id = external;
    title = bounded_text max_text_length w.title;
    url = url;
    run = sanitize_run r;
    next_retry_at = times a.next_retry_at;
    blocked_reason = nullable_text max_text_length a.blocked_reason;
    last_error_code = nullable_text 100 a.last_error_code;
  })
  item_of _ _ _ _ _ = none

  unfoldable pub sanitize_item : Row → Result String (Option Item)
  unfolding validated_https_url sanitize_run required_text bounded_text elem
  sanitize_item (a, w, r) =
      if elem w.provider ("github" ∷ "gitlab" ∷ [])
      then validated_https_url w.url >>= (λ url. ok (
          item_of (a, w, r) (required_text a.assignment_key) (required_text w.repository_id)
            (required_text w.external_id) url))
      else ok none

  abbrev pub shown_item : Option Item → List Item → List Item
  shown_item none items = items
  shown_item (some item) items = item ∷ items

  unfoldable pub sanitize_rows : List Row → Result String (List Item)
  unfolding sanitize_item
  sanitize_rows [] = ok []
  sanitize_rows (row ∷ rows) =
      sanitize_item row >>= (λ item. sanitize_rows rows >>= (λ items. ok (shown_item item items)))

  -- The error is the text of a `ValueError`, the address where `urlparse` raises it.
  unfoldable pub read_role_status_snapshot : Bool → String → ℕ → ℕ → Db → Result String Snapshot
  unfolding queue_of item_rows sanitize_rows elem
  read_role_status_snapshot enabled role limit now s = do
    require (elem role valid_roles) "role must be a canonical orchestrator role"
    require (leb 1 limit && leb limit 50) "limit must be an integer from 1 to 50"
    items ← sanitize_rows (item_rows now role limit s)
    ok (record {
      role = role;
      orchestrator_enabled = enabled;
      generated_at = utc now;
      queue = queue_of now role s.role_assignments;
      items = items;
    })
