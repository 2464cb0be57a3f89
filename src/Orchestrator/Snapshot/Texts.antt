-- ===== src/Orchestrator/Snapshot/Texts.antt =====
-- The texts of an item: bounded, and without control characters.
use Prim.Native.Char.{Char, code}
use Prim.Native.String.{count}
use text.Mathlib.TextLemmas.{nil-append, cons-append, length-nil, length-cons}
use hermes_sdlc_agents.Prelude.{
  ℕ, zero, suc, String, Bool, false, ◌||◌, some, List, [], ◌∷◌, ◌==◌, ◌≡◌, ◌≤◌, refl, subst, arith,
  inl, inr, Bool-cases, All, take_chars, join, pieces, words, add_to_first, is_space,
  some-injective,
}
use hermes_sdlc_agents.Orchestrator.Snapshot.{
  spaced, bounded_text, required_text, max_text_length, has_control_code, is_control,
}
use Prim.Native.String

-- The text has no control character.
abbrev IsPlain : String → Type 0
IsPlain s = has_control_code s ≡ false

spaced-IsPlain : (s : String) → IsPlain (spaced s)
unfolding spaced has_control_code
spaced-IsPlain String.[] = refl
spaced-IsPlain (String.◌∷◌ c s) = elim (Bool-cases (is_control (code c))) [
  | inl e ↦ rw (e) (spaced-IsPlain s)
  | inr e ↦ rw (e, e) (spaced-IsPlain s)
]

or_false : (a b : Bool) → (a || b) ≡ false → (a ≡ false) × (b ≡ false)
or_false a b h = ground arith

halves :
    (c : Char) (s : String) → IsPlain (String.◌∷◌ c s) → (is_control (code c) ≡ false) × IsPlain s
unfolding has_control_code
halves c s h = or_false (is_control (code c)) (has_control_code s) h

append-IsPlain : (s t : String) → IsPlain s → IsPlain t → IsPlain (String.◌++◌ s t)
unfolding has_control_code
append-IsPlain String.[] t h k = rw (nil-append t) k
append-IsPlain (String.◌∷◌ c s) t h k =
    let (e, rest) = halves c s h in rw (cons-append c s t, e) (append-IsPlain s t rest k)

add_to_first-IsPlain :
    (s : String) (ss : List String) → IsPlain s → All IsPlain ss → All IsPlain (add_to_first s ss)
add_to_first-IsPlain s [] h k = (h, tt)
add_to_first-IsPlain s (t ∷ ts) h k = (append-IsPlain s t h k.0, k.1)

pieces-IsPlain : (s : String) → IsPlain s → All IsPlain (pieces s)
unfolding pieces has_control_code
pieces-IsPlain String.[] h = (refl, tt)
pieces-IsPlain (String.◌∷◌ c s) h =
    let (e, rest) = halves c s h in
    elim (Bool-cases (is_space (code c))) [
      | inl f ↦ rw (f) (refl, pieces-IsPlain s rest)
      | inr f ↦ rw (f) (
          add_to_first-IsPlain (String.◌∷◌ c String.[]) (pieces s) (rw (e) refl)
            (pieces-IsPlain s rest))
    ]

words-IsPlain : (ss : List String) → All IsPlain ss → All IsPlain (words ss)
unfolding words
words-IsPlain [] h = tt
words-IsPlain (s ∷ ss) h = elim (Bool-cases (s == "")) [
  | inl e ↦ rw (e) (words-IsPlain ss h.1)
  | inr e ↦ rw (e) (h.0, words-IsPlain ss h.1)
]

join-IsPlain : (ss : List String) → All IsPlain ss → IsPlain (join " " ss)
unfolding join has_control_code
join-IsPlain [] h = refl
join-IsPlain (s ∷ []) h = h.0
join-IsPlain (s ∷ t ∷ ss) h =
    append-IsPlain s (String.◌++◌ " " (join " " (t ∷ ss))) h.0
      (append-IsPlain " " (join " " (t ∷ ss)) refl (join-IsPlain (t ∷ ss) h.1))

take_chars-IsPlain : (n : ℕ) (s : String) → IsPlain s → IsPlain (take_chars n s)
unfolding take_chars has_control_code
take_chars-IsPlain zero s h = refl
take_chars-IsPlain (suc n) String.[] h = refl
take_chars-IsPlain (suc n) (String.◌∷◌ c s) h =
    let (e, rest) = halves c s h in rw (e) (take_chars-IsPlain n s rest)

count-take_chars : (n : ℕ) (s : String) → count (take_chars n s) ≤ n
unfolding take_chars
count-take_chars zero s = rw (length-nil) (omega arith)
count-take_chars (suc n) String.[] = rw (length-nil) (omega arith)
count-take_chars (suc n) (String.◌∷◌ c s) =
    rw (length-cons c (take_chars n s)) (omega (arith, count-take_chars n s))

abbrev pub IsText : ℕ → String → Type 0
IsText maximum s = (count s ≤ maximum) × (has_control_code s ≡ false)

pub bounded_text-IsText : (maximum : ℕ) (s : String) → IsText maximum (bounded_text maximum s)
unfolding bounded_text
bounded_text-IsText maximum s = (
  count-take_chars maximum _,
  take_chars-IsPlain maximum _
      (join-IsPlain _ (words-IsPlain _ (pieces-IsPlain (spaced s) (spaced-IsPlain s)))),
)

abbrev pub IsName : String → Type 0
IsName s = IsText max_text_length s × ((s == "") ≡ false)

pub required_text-IsName : (s : String) {t : String} → required_text s ≡ some t → IsName t
unfolding required_text
required_text-IsName s h = elim (Bool-cases (bounded_text max_text_length s == "")) [
  | inl e ↦ absurd (cc (rw e at h))
  | inr e ↦ subst IsName (some-injective _ _ (rw e at h)) (bounded_text-IsText max_text_length s, e)
]
