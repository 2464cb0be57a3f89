-- ===== src/Gateway/Judge/Bounds.antt =====
-- What a classification that `classify` gives is known to satisfy.
use Prim.Native.String.{count}
use hermes_sdlc_agents.Prelude.{
  inr, inl, ◌>>=◌, ap, ℕ, String, Bool, true, false, ◌&&◌, Option, none, some, ◌≡◌, refl, arith,
  ◌==◌, ltb, Bool-cases, Result, ok, raise, >>=-eq-ok, require-eq-ok, ok-injective, contains, strip,
  subst,
}
use hermes_sdlc_agents.Prelude.Json.{null, arr, obj, Json, Fields, bool, number, str, get}
use hermes_sdlc_agents.Gateway.Judge.{
  obj, unavailable, malformed, arr, Reader, JudgeError, to_bool, bounded_text, all_allowed,
  in_bounds, bounded_float, safe_capability, parse_semantics, result_of, read_result, classify,
}
use hermes_sdlc_agents.Gateway.Models.{ToolDescriptor, ToolSemantics}

to_bool-eq : (v : Option Json) {b : Bool} → to_bool v ≡ ok b → v ≡ some (bool b)
to_bool-eq none h = cc
to_bool-eq (some null) h = cc
to_bool-eq (some (bool b)) h = ap (λ x. some (bool x)) (ok-injective h)
to_bool-eq (some (number n)) h = cc
to_bool-eq (some (str s)) h = cc
to_bool-eq (some (arr vs)) h = cc
to_bool-eq (some (obj fs)) h = cc

bounded_text-ne :
    (v : Option Json) (limit : ℕ) {s : String} → bounded_text v limit ≡ ok s → (s == "") ≡ false
unfolding bounded_text
bounded_text-ne none limit h = cc
bounded_text-ne (some null) limit h = cc
bounded_text-ne (some (bool b)) limit h = cc
bounded_text-ne (some (number n)) limit h = cc
bounded_text-ne (some (arr vs)) limit h = cc
bounded_text-ne (some (obj fs)) limit h = cc
bounded_text-ne (some (str s)) limit h = elim (Bool-cases (strip s == "")) [
  | inl e ↦ absurd (cc (rw e at h))
  | inr e ↦ elim (Bool-cases (ltb limit (count s))) [
    | inl f ↦ absurd (cc (rw (e, f) at h))
    | inr f ↦ subst (λ t. (t == "") ≡ false) (ok-injective (rw (e, f) at h)) e
  ]
]

module _ {F : Type 0} (rd : Reader F) where
  abbrev pub IsBounded : F → Type 0
  IsBounded x = (rd.lt x rd.zero ≡ false) × (rd.lt rd.one x ≡ false)

  -- The fields of the result that the classification has.
  pub record IsRead (result : Fields) (s : ToolSemantics F) : Type 0 where
    pub allowed : all_allowed s.canonical_capability ≡ true
    pub dotted : contains s.canonical_capability "." ≡ true
    pub read : get result "read" ≡ some (bool s.read)
    pub write : get result "write" ≡ some (bool s.write)
    pub destructive : get result "destructive" ≡ some (bool s.destructive)
    pub egress : get result "egress" ≡ some (bool s.egress)
    pub credential_access : get result "credential_access" ≡ some (bool s.credential_access)
    pub arbitrary_execution : get result "arbitrary_execution" ≡ some (bool s.arbitrary_execution)
    pub open_world : get result "open_world" ≡ some (bool s.open_world)
    pub rationale : (s.rationale == "") ≡ false
    pub confidence : IsBounded s.confidence

  bounded_float-IsBounded : (v : Option Json) {x : F} → bounded_float rd v ≡ ok x → IsBounded x
  unfolding bounded_float
  bounded_float-IsBounded none h = cc
  bounded_float-IsBounded (some null) h = cc
  bounded_float-IsBounded (some (bool b)) h = cc
  bounded_float-IsBounded (some (str s)) h = cc
  bounded_float-IsBounded (some (arr vs)) h = cc
  bounded_float-IsBounded (some (obj fs)) h = cc
  bounded_float-IsBounded (some (number n)) h = by_value (rd.to_float n) h
    where
      by_value : (o : Option F) {x : F} → in_bounds rd o ≡ ok x → IsBounded x
      by_value none h = cc
      by_value (some y) h = elim (Bool-cases (rd.lt y rd.zero)) [
        | inl e ↦ absurd (cc (rw e at h))
        | inr e ↦ elim (Bool-cases (rd.lt rd.one y)) [
          | inl f ↦ absurd (cc (rw (e, f) at h))
          | inr f ↦ subst IsBounded (ok-injective (rw (e, f) at h)) (e, f)
        ]
      ]

  safe_capability-allowed :
      (v : Option Json) {s : String}
      → safe_capability rd v ≡ ok s
      → (all_allowed s ≡ true) × (contains s "." ≡ true)
  unfolding safe_capability
  safe_capability-allowed v h =
      let (given, e, h) = >>=-eq-ok (bounded_text v 160) _ h in
      let (t, h) = require-eq-ok _ malformed _ h in
      subst (λ s. (all_allowed s ≡ true) × (contains s "." ≡ true)) (ok-injective h)
        (split (all_allowed (rd.lower given)) (contains (rd.lower given) ".") t)
    where
      split : (a b : Bool) → (a && b) ≡ true → (a ≡ true) × (b ≡ true)
      split a b h = ground arith

  parse_semantics-IsRead :
      (value : Fields) {s : ToolSemantics F} → parse_semantics rd value ≡ ok s → IsRead value s
  unfolding parse_semantics
  parse_semantics-IsRead value h =
      let (capability, named, h) =
        >>=-eq-ok (safe_capability rd (get value "canonical_capability")) _ h in
      let (read, e₁, h) = >>=-eq-ok (to_bool (get value "read")) _ h in
      let (write, e₂, h) = >>=-eq-ok (to_bool (get value "write")) _ h in
      let (destructive, e₃, h) = >>=-eq-ok (to_bool (get value "destructive")) _ h in
      let (egress, e₄, h) = >>=-eq-ok (to_bool (get value "egress")) _ h in
      let (credential_access, e₅, h) = >>=-eq-ok (to_bool (get value "credential_access")) _ h in
      let (execution, e₆, h) = >>=-eq-ok (to_bool (get value "arbitrary_execution")) _ h in
      let (open_world, e₇, h) = >>=-eq-ok (to_bool (get value "open_world")) _ h in
      let (rationale, said, h) = >>=-eq-ok (bounded_text (get value "rationale") 800) _ h in
      let (confidence, sure, h) = >>=-eq-ok (bounded_float rd (get value "confidence")) _ h in
      let (allowed, dotted) = safe_capability-allowed (get value "canonical_capability") named in
      subst (IsRead value) (ok-injective h) record {
        allowed = allowed;
        dotted = dotted;
        read = to_bool-eq _ e₁;
        write = to_bool-eq _ e₂;
        destructive = to_bool-eq _ e₃;
        egress = to_bool-eq _ e₄;
        credential_access = to_bool-eq _ e₅;
        arbitrary_execution = to_bool-eq _ e₆;
        open_world = to_bool-eq _ e₇;
        rationale = bounded_text-ne _ 800 said;
        confidence = bounded_float-IsBounded _ sure;
      }

  -- A classification is read off a result that is an object in the text of the model: its flags are the
  -- Booleans of the result, its capability is a dotted name of allowed characters, its rationale is not
  -- empty, and neither its confidence nor its fit is less than 0 or greater than 1.
  pub classify-IsRead :
      (ask : String → ToolDescriptor → Result String String) (intent : String)
      (tool : ToolDescriptor) {s : ToolSemantics F} {fit : F}
      → classify rd ask intent tool ≡ ok (s, fit)
      → (raw : String) × (result : Fields) × (ask intent tool ≡ ok raw)
        × (result_of rd raw ≡ ok result)
        × IsRead result s
        × IsBounded fit
  unfolding classify read_result
  classify-IsRead ask intent tool {s} {fit} h = by_answer (ask intent tool) refl h
    where
      by_answer :
          (m : Result String String)
          → ask intent tool ≡ m
          → Path
              (Result JudgeError (ToolSemantics F × F))
              (elim m [
                | raise e ↦ raise (unavailable e)
                | ok raw ↦ result_of rd raw >>= (λ result. read_result rd result)
              ])
              (ok (s, fit))
          → (raw : String) × (result : Fields) × (ask intent tool ≡ ok raw)
            × (result_of rd raw ≡ ok result)
            × IsRead result s
            × IsBounded fit
      by_answer (raise e) same h = cc
      by_answer (ok raw) same h =
          let (result, read, h) = >>=-eq-ok (result_of rd raw) _ h in
          let (semantics, e, h) = >>=-eq-ok (parse_semantics rd result) _ h in
          let (x, f, h) = >>=-eq-ok (bounded_float rd (get result "intent_fit")) _ h in
          let both = ok-injective h in
          (
            raw,
            result,
            same,
            read,
            subst (IsRead result) (ap (λ p. p.0) both) (parse_semantics-IsRead result e),
            subst IsBounded (ap (λ p. p.1) both) (bounded_float-IsBounded _ f),
          )
