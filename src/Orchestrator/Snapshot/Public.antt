-- ===== src/Orchestrator/Snapshot/Public.antt =====
-- What a snapshot shows of the database: only public statuses, bounded texts without control
-- characters, and https addresses without credentials.
use Prim.Native.String.{count}
use hermes_sdlc_agents.Prelude.{
  length-take, ℕ, suc, String, Bool, true, false, not, ◌&&◌, ◌||◌, Option, none, some, List, [],
  ◌∷◌, ◌==◌, ◌≡◌, ◌≤◌, refl, subst, arith, inl, inr, Bool-cases, All, length, keep, ◌+◌, leb, ltb,
  leb→le, ok, >>=-eq-ok, require-eq-ok, ok-injective, if◌then◌else◌,
}
use hermes_sdlc_agents.Prelude.Table.{elem}
use hermes_sdlc_agents.Orchestrator.Snapshot.Counters.{queue_of_total}
use hermes_sdlc_agents.Orchestrator.Snapshot.Texts.{
  IsText, bounded_text-IsText, IsName, required_text-IsName,
}
use hermes_sdlc_agents.Orchestrator.Statuses.{valid_roles}
use hermes_sdlc_agents.Orchestrator.Database.{Db, AgentRun}
use hermes_sdlc_agents.Orchestrator.Snapshot.{
  Item, PublicRun, Snapshot, Url, Row, assignment_statuses, run_statuses, required_text,
  max_text_length, has_control_code, is_public_url, sanitize_run, public_run, public_status, url_of,
  validated_https_url, item_of, sanitize_item, sanitize_rows, shown_item, item_rows,
  read_role_status_snapshot, nullable_text,
}

abbrev pub AreTexts : ℕ → Option String → Type 0
AreTexts maximum none = Unit
AreTexts maximum (some s) = IsText maximum s

abbrev pub IsPublicRun : Option PublicRun → Type 0
IsPublicRun none = Unit
IsPublicRun (some r) =
    IsName r.hermes_run_id × (elem r.status run_statuses ≡ true) × (1 ≤ r.attempt_number)

item_rows_limit :
    (now : ℕ) (role : String) (limit : ℕ) (s : Db) → length (item_rows now role limit s) ≤ limit
unfolding item_rows
item_rows_limit now role limit s = length-take limit _

module _ (iso : ℕ → Option String) (utc : ℕ → String) (parse_url : String → Option Url) where
  pub record IsPublic (i : Item) : Type 0 where
    pub provider : elem i.provider ("github" ∷ "gitlab" ∷ []) ≡ true
    pub status : elem i.assignment_status assignment_statuses ≡ true
    pub key : IsName i.assignment_key
    pub repository : IsName i.repository_id
    pub external : IsName i.external_id
    pub title : IsText max_text_length i.title
    pub address :
        (u : Url) × (parse_url i.url ≡ some u) × (is_public_url iso utc parse_url u ≡ true)
    pub run : IsPublicRun i.run
    pub reason : AreTexts max_text_length i.blocked_reason
    pub error : AreTexts 100 i.last_error_code

  nullable_text-IsText :
      (maximum : ℕ) (o : Option String) → AreTexts maximum (nullable_text maximum o)
  nullable_text-IsText maximum none = tt
  nullable_text-IsText maximum (some s) = bounded_text-IsText maximum s

  public_status-elem :
      (s : String) → elem (public_status iso utc parse_url s) assignment_statuses ≡ true
  unfolding elem
  public_status-elem s = elim (Bool-cases (elem s assignment_statuses)) [
    | inl e ↦ rw (e) e
    | inr e ↦ rw (e) refl
  ]

  run-IsPublicRun :
      (r : AgentRun) (o started : Option String)
      → required_text r.hermes_run_id ≡ o
      → IsPublicRun (public_run iso utc parse_url r o started)
  run-IsPublicRun r none started e = tt
  run-IsPublicRun r (some id) none e = tt
  run-IsPublicRun r (some id) (some started) e = elim (Bool-cases (elem r.status run_statuses)) [
    | inr f ↦ rw (f) tt
    | inl f ↦ elim (Bool-cases (leb 1 r.attempt_number)) [
      | inr g ↦ rw (f, g) tt
      | inl g ↦ rw (f, g) (required_text-IsName r.hermes_run_id e, f, leb→le 1 r.attempt_number g)
    ]
  ]

  sanitize_run-IsPublicRun : (r : Option AgentRun) → IsPublicRun (sanitize_run iso utc parse_url r)
  unfolding sanitize_run
  sanitize_run-IsPublicRun none = tt
  sanitize_run-IsPublicRun (some r) =
      run-IsPublicRun r (required_text r.hermes_run_id) (iso r.started_at) refl

  abbrev IsAddress : Option String → Type 0
  IsAddress none = Unit
  IsAddress (some s) =
      (u : Url) × (parse_url s ≡ some u) × (is_public_url iso utc parse_url u ≡ true)

  validated-IsAddress :
      (s : String) {o : Option String}
      → validated_https_url iso utc parse_url s ≡ ok o
      → IsAddress o
  unfolding validated_https_url
  validated-IsAddress s h =
      elim (Bool-cases (ltb max_text_length (count s) || has_control_code s)) [
        | inl e ↦ subst IsAddress (ok-injective (rw e at h)) tt
        | inr e ↦ by_parse (parse_url s) refl (rw e at h)
      ]
    where
      by_public :
          (u : Url) (b : Bool)
          → parse_url s ≡ some u
          → is_public_url iso utc parse_url u ≡ b
          → IsAddress (if b then some s else none)
      by_public u true same e = (u, same, e)
      by_public u false same e = tt

      by_parse :
          (m : Option Url) {o : Option String}
          → parse_url s ≡ m
          → url_of iso utc parse_url s m ≡ ok o
          → IsAddress o
      by_parse none same k = cc
      by_parse (some u) same k =
          subst IsAddress (ok-injective k)
            (by_public u (is_public_url iso utc parse_url u) same refl)

  abbrev AreItems : Option Item → Type 0
  AreItems none = Unit
  AreItems (some i) = IsPublic i

  item_of-IsPublic :
      (row : Row) (key repository external url : Option String)
      → elem (row.1).provider ("github" ∷ "gitlab" ∷ []) ≡ true
      → required_text (row.0).assignment_key ≡ key
      → required_text (row.1).repository_id ≡ repository
      → required_text (row.1).external_id ≡ external
      → IsAddress url
      → AreItems (item_of iso utc parse_url row key repository external url)
  item_of-IsPublic row none _ _ _ p e f g u = tt
  item_of-IsPublic row (some key) none _ _ p e f g u = tt
  item_of-IsPublic row (some key) (some repository) none _ p e f g u = tt
  item_of-IsPublic row (some key) (some repository) (some external) none p e f g u = tt
  item_of-IsPublic (a, w, r) (some key) (some repository) (some external) (some url) p e f g u =
      record {
        provider = p;
        status = public_status-elem a.status;
        key = required_text-IsName a.assignment_key e;
        repository = required_text-IsName w.repository_id f;
        external = required_text-IsName w.external_id g;
        title = bounded_text-IsText max_text_length w.title;
        address = u;
        run = sanitize_run-IsPublicRun r;
        reason = nullable_text-IsText max_text_length a.blocked_reason;
        error = nullable_text-IsText 100 a.last_error_code;
      }

  sanitize_item-IsPublic :
      (row : Row) {o : Option Item} → sanitize_item iso utc parse_url row ≡ ok o → AreItems o
  unfolding sanitize_item
  sanitize_item-IsPublic (a, w, r) h =
      elim (Bool-cases (elem w.provider ("github" ∷ "gitlab" ∷ []))) [
        | inr e ↦ subst AreItems (ok-injective (rw e at h)) tt
        | inl e ↦
            let (url, f, k) =
              >>=-eq-ok (validated_https_url iso utc parse_url w.url) _ (rw e at h) in
            subst AreItems (ok-injective k)
              (item_of-IsPublic (a, w, r) _ _ _ url e refl refl refl (validated-IsAddress w.url f))
      ]

  sanitize_rows-IsPublic :
      (rows : List Row) {items : List Item}
      → sanitize_rows iso utc parse_url rows ≡ ok items
      → All IsPublic items × (length items ≤ length rows)
  unfolding sanitize_rows
  sanitize_rows-IsPublic [] h =
      subst (λ (items : List Item). All IsPublic items × (length items ≤ 0)) (ok-injective h)
        (tt, omega arith)
  sanitize_rows-IsPublic (row ∷ rows) h =
      let (o, e, h) = >>=-eq-ok (sanitize_item iso utc parse_url row) _ h in
      let (items, f, h) = >>=-eq-ok (sanitize_rows iso utc parse_url rows) _ h in
      subst (λ (xs : List Item). All IsPublic xs × (length xs ≤ suc (length rows))) (ok-injective h)
        (added o items (sanitize_item-IsPublic row e) (sanitize_rows-IsPublic rows f))
    where
      added :
          (o : Option Item) (items : List Item)
          → AreItems o
          → All IsPublic items × (length items ≤ length rows)
          → All IsPublic (shown_item iso utc parse_url o items)
            × (length (shown_item iso utc parse_url o items) ≤ suc (length rows))
      added none items p (all, few) = (all, omega arith)
      added (some i) items p (all, few) = ((p, all), omega arith)

  -- A snapshot has at most as many items as the limit, each with a public provider and status, with
  -- bounded texts without control characters, an address that is https without credentials, and a run
  -- that is public or none. Its counters together are the role's assignments that are not completed.
  pub read_role_status_snapshot-IsPublic :
      (enabled : Bool) (role : String) (limit now : ℕ) (s : Db) {snap : Snapshot}
      → read_role_status_snapshot iso utc parse_url enabled role limit now s ≡ ok snap
      → All IsPublic snap.items
        × (length snap.items ≤ limit)
        × (snap.queue.pending_due + snap.queue.pending_delayed + snap.queue.active
              + snap.queue.blocked
            ≡ length
                (keep (λ a. a.role == role && not (a.status == "COMPLETED")) s.role_assignments))
  unfolding read_role_status_snapshot
  read_role_status_snapshot-IsPublic enabled role limit now s h =
      let (_, h) = require-eq-ok (elem role valid_roles) _ _ h in
      let (_, h) = require-eq-ok (leb 1 limit && leb limit 50) _ _ h in
      let (items, e, h) =
        >>=-eq-ok (sanitize_rows iso utc parse_url (item_rows now role limit s)) _ h in
      let (all, few) = sanitize_rows-IsPublic (item_rows now role limit s) e in
      subst
        (λ (q : Snapshot).
          All IsPublic q.items
          × (length q.items ≤ limit)
          × (q.queue.pending_due + q.queue.pending_delayed + q.queue.active + q.queue.blocked
              ≡ length
                  (keep (λ a. a.role == role && not (a.status == "COMPLETED")) s.role_assignments)))
        (ok-injective h)
        (
          all,
          omega (arith, few, item_rows_limit now role limit s),
          queue_of_total now role s.role_assignments,
        )
