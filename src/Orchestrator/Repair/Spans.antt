-- ===== src/Orchestrator/Repair/Spans.antt =====
-- The spans of the objects in a text.
use Prim.Native.Char.{code}
use hermes_sdlc_agents.Prelude.{
  String, Bool, true, false, Option, none, some, List, [], ◌∷◌, ◌++◌, refl, ◌≡◌, ◌≤◌, ◌<◌, ◌+◌, ℕ,
  zero, suc, inl, inr, Bool-cases, arith, ok, nat_eq, if◌then◌else◌, subst, ok-injective,
}
use hermes_sdlc_agents.Orchestrator.Repair.{
  open_at, scan_start, scan_char, close, scan, string_char, close_at, balanced_object_spans, Scan,
}

-- The spans are not empty, follow each other from `first` on without overlapping, and end by `last`.
abbrev pub IsChain : ℕ → List (ℕ × ℕ) → ℕ → Type 0
IsChain first [] last = first ≤ last
IsChain first (span ∷ spans) last =
    (first ≤ span.0) × (span.0 < span.1) × IsChain (span.1) spans last

IsChain-weaken :
    (first : ℕ) (spans : List (ℕ × ℕ)) (m n : ℕ)
    → m ≤ n
    → IsChain first spans m
    → IsChain first spans n
IsChain-weaken first [] m n h c = omega (arith, h, c)
IsChain-weaken first (span ∷ spans) m n h c = (c.0, c.1, IsChain-weaken (span.1) spans m n h c.2)

IsChain-append :
    (first : ℕ) (spans : List (ℕ × ℕ)) (a b : ℕ)
    → a < b
    → IsChain first spans a
    → IsChain first (spans ++ (a, b) ∷ []) b
IsChain-append first [] a b h c = (c, h, omega arith)
IsChain-append first (span ∷ spans) a b h c = (c.0, c.1, IsChain-append (span.1) spans a b h c.2)

-- Up to an index, with an object open or not.
abbrev pub IsAt : ℕ → List (ℕ × ℕ) → Option ℕ → Type 0
IsAt index spans none = IsChain 0 spans index
IsAt index spans (some first) = IsChain 0 spans first × (first < index)

abbrev pub IsScanned : ℕ → Scan → Type 0
IsScanned index s = IsAt index s.spans s.start

IsAt-next :
    (index : ℕ) (spans : List (ℕ × ℕ)) (o : Option ℕ)
    → IsAt index spans o
    → IsAt (index + 1) spans o
IsAt-next index spans none h = IsChain-weaken 0 spans index (index + 1) (omega arith) h
IsAt-next index spans (some a) h = (h.0, omega (arith, h.1))

IsAt-open :
    (index : ℕ) (spans : List (ℕ × ℕ)) (o : Option ℕ)
    → IsAt index spans o
    → IsAt (index + 1) spans (some index)
IsAt-open index spans none h = (h, omega arith)
IsAt-open index spans (some a) h =
    (IsChain-weaken 0 spans a index (omega (arith, h.1)) h.0, omega arith)

close_at-IsScanned :
    (index depth : ℕ) (o : Option ℕ) (s : Scan)
    → s.start ≡ o
    → IsScanned index s
    → IsScanned (index + 1) (close_at index depth o s)
unfolding close_at
close_at-IsScanned index zero none s e h = IsAt-next index s.spans s.start h
close_at-IsScanned index zero (some a) s e h =
    let (c, below) = subst (IsAt index s.spans) e h in
    IsChain-append 0 s.spans a (index + 1) (omega (arith, below)) c
close_at-IsScanned index (suc depth) o s e h = IsAt-next index s.spans s.start h

close-IsScanned :
    (index depth : ℕ) (s : Scan) → IsScanned index s → IsScanned (index + 1) (close index depth s)
unfolding close
close-IsScanned index zero s h = IsAt-next index s.spans s.start h
close-IsScanned index (suc depth) s h = close_at-IsScanned index depth s.start s refl h

IsScanned-if :
    (index : ℕ) (b : Bool) (s t : Scan)
    → IsScanned index s
    → IsScanned index t
    → IsScanned index (if b then s else t)
IsScanned-if index true s t h k = h
IsScanned-if index false s t h k = k

string_char-IsScanned :
    (index char : ℕ) (s : Scan) → IsScanned index s → IsScanned (index + 1) (string_char char s)
string_char-IsScanned index char s h =
    let next = IsAt-next index s.spans s.start h in
    IsScanned-if (index + 1) s.escaped _ _ next (
      IsScanned-if (index + 1) (nat_eq char b'\\') _ _ next
        (IsScanned-if (index + 1) (nat_eq char b'"') _ _ next next))

open_at-IsScanned :
    (index : ℕ) (s : Scan) → IsScanned index s → IsScanned (index + 1) (open_at index s)
open_at-IsScanned index s h = by_depth (nat_eq s.depth 0)
  where
    by_depth : (b : Bool) → IsAt (index + 1) s.spans (if b then some index else s.start)
    by_depth true = IsAt-open index s.spans s.start h
    by_depth false = IsAt-next index s.spans s.start h

scan_char-IsScanned :
    (index char : ℕ) (s : Scan) → IsScanned index s → IsScanned (index + 1) (scan_char index char s)
unfolding scan_char
scan_char-IsScanned index char s h =
    let next = IsAt-next index s.spans s.start h in
    IsScanned-if (index + 1) s.in_string _ _ (string_char-IsScanned index char s h) (
      IsScanned-if (index + 1) (nat_eq char b'"') _ _ next (
        IsScanned-if (index + 1) (nat_eq char b'{') _ _ (open_at-IsScanned index s h) (
          IsScanned-if (index + 1) (nat_eq char b'}') _ _ (close-IsScanned index s.depth s h)
            next)))

abbrev pub char_count : String → ℕ
char_count String.[] = 0
char_count (String.◌∷◌ c text) = suc (char_count text)

scan-IsScanned :
    (index : ℕ) (text : String) (s : Scan)
    → IsScanned index s
    → IsScanned (index + char_count text) (scan index text s)
unfolding scan
scan-IsScanned index String.[] s h = subst (λ i. IsScanned i s) (omega arith) h
scan-IsScanned index (String.◌∷◌ c text) s h =
    subst (λ i. IsScanned i (scan (index + 1) text (scan_char index (code c) s))) (omega arith)
      (scan-IsScanned (index + 1) text (scan_char index (code c) s)
        (scan_char-IsScanned index (code c) s h))

IsAt-within :
    (index : ℕ) (spans : List (ℕ × ℕ)) (o : Option ℕ) → IsAt index spans o → IsChain 0 spans index
IsAt-within index spans none h = h
IsAt-within index spans (some a) h = IsChain-weaken 0 spans a index (omega (arith, h.1)) h.0

-- The spans that are found in a text are not empty, lie in the text in order, and do not overlap.
pub balanced_object_spans-IsChain :
    (text : String) (spans : List (ℕ × ℕ))
    → balanced_object_spans text ≡ ok spans
    → IsChain 0 spans (char_count text)
unfolding balanced_object_spans
balanced_object_spans-IsChain text spans h =
    let s = scan 0 text scan_start in
    let within =
      IsAt-within (0 + char_count text) s.spans s.start
        (scan-IsScanned 0 text scan_start (omega arith)) in
    elim (Bool-cases (nat_eq s.depth 0)) [
      | inr e ↦ cc (rw e at h)
      | inl e ↦
          subst (λ xs. IsChain 0 xs (char_count text)) (ok-injective (rw e at h))
            (subst (IsChain 0 s.spans) (omega arith) within)
    ]
