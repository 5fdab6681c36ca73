-- ===== src/Llm/Candidates.antt =====
-- What a reply to `GeminiClient` of services/integration-api/agent/llm.py holds in its body, and
-- which replies are worth a second request.
use stpp_connector.Base.{
  ◌≡◌, ◌≤◌, ◌<◌, refl, ap, sym, ◌∙◌, Bool, true, false, Option, none, some, Text, codes, ok, ◌⊎◌,
  inl, inr, Bool-cases,
}
use stpp_connector.Json.{
  Value, Fields, null, bool, int, float, obj, arr, str, get_field, lookup_key,
}
use stpp_connector.Http.{Response, no_response, response}
use stpp_connector.Llm.Retry.{Turn, ended, again}
use stpp_connector.Llm.Gemini.{
  at_zero, parts_text, equals_text, malformed, over_cap, told_turn, parse_candidate, parse,
}

-- `payload["candidates"][0]`
abbrev pub first_candidate : Value → Option Value
first_candidate payload = elim (lookup_key (codes "candidates") payload) [
  | none ↦ none
  | some candidates ↦ at_zero candidates
]

-- `candidate["content"]["parts"]`, joined.
abbrev pub told_text : Fields → Option Text
told_text candidate = elim (get_field (codes "content") candidate) [
  | none ↦ none
  | some content ↦ elim (lookup_key (codes "parts") content) [
    | none ↦ none
    | some parts ↦ parts_text parts
  ]
]

abbrev pub is_capped : Fields → Bool
is_capped candidate = equals_text (codes "MAX_TOKENS") (get_field (codes "finishReason") candidate)

-- The first candidate was not cut at the cap, and `told` is what its parts hold.
abbrev pub Tells : Value → Option Text → Type 0
Tells payload told =
    (candidate : Fields) × (first_candidate payload ≡ some (obj candidate))
    × (is_capped candidate ≡ false)
    × (told_text candidate ≡ told)

-- A status below 400 and a body with the text.
abbrev pub Holds : Response → Text → Type 0
Holds (no_response why) text = ⊥
Holds (response status none) text = ⊥
Holds (response status (some payload)) text = (status < 400) × Tells payload (some text)

-- A body that is no JSON, has no first candidate, or whose first candidate has no readable parts.
abbrev pub IsMalformed : Option Value → Type 0
IsMalformed none = Unit
IsMalformed (some payload) = (first_candidate payload ≡ none) ⊎ Tells payload none

-- No response, status 429, a status of at least 500, or a malformed body with a status below 400.
abbrev pub IsTransient : Response → Type 0
IsTransient (no_response why) = Unit
IsTransient (response status body) =
    (status ≡ 429) ⊎ (500 ≤ status) ⊎ ((status < 400) × IsMalformed body)

pub parse_first : Option Value → Turn
parse_first none = malformed
parse_first (some candidate) = parse_candidate candidate

pub parse-first : (payload : Value) → parse payload ≡ parse_first (first_candidate payload)
unfolding parse parse_first
parse-first payload = by_candidates (lookup_key (codes "candidates") payload) refl
  where
    by_first :
        (cs : Value)
        → (o : Option Value) → at_zero cs ≡ o
        → lookup_key (codes "candidates") payload ≡ some cs
        → parse payload ≡ parse_first (first_candidate payload)
    by_first cs none f e = rw (parse, first_candidate, e, f) refl
    by_first cs (some c) f e = rw (parse, first_candidate, e, f) refl

    by_candidates :
        (o : Option Value)
        → lookup_key (codes "candidates") payload ≡ o
        → parse payload ≡ parse_first (first_candidate payload)
    by_candidates none e = rw (parse, first_candidate, e) refl
    by_candidates (some cs) e = by_first cs (at_zero cs) refl e

parse_told :
    (candidate : Fields)
    → is_capped candidate ≡ false
    → parse_candidate (obj candidate) ≡ told_turn (told_text candidate)
unfolding parse_candidate
parse_told candidate whole = by_content (get_field (codes "content") candidate) refl
  where
    by_parts :
        (content : Value)
        → (o : Option Value) → lookup_key (codes "parts") content ≡ o
        → get_field (codes "content") candidate ≡ some content
        → parse_candidate (obj candidate) ≡ told_turn (told_text candidate)
    by_parts content none f e = rw (parse_candidate, told_text, whole, e, f) refl
    by_parts content (some parts) f e = rw (parse_candidate, told_text, whole, e, f) refl

    by_content :
        (o : Option Value)
        → get_field (codes "content") candidate ≡ o
        → parse_candidate (obj candidate) ≡ told_turn (told_text candidate)
    by_content none e = rw (parse_candidate, told_text, whole, e) refl
    by_content (some content) e = by_parts content (lookup_key (codes "parts") content) refl e

parse_capped :
    (candidate : Fields) → is_capped candidate ≡ true → parse_candidate (obj candidate) ≡ over_cap
unfolding parse_candidate
parse_capped candidate h = rw (parse_candidate, h) refl

told_turn-ok : (o : Option Text) (text : Text) → told_turn o ≡ ended (ok text) → o ≡ some text
told_turn-ok none text h = cc h
told_turn-ok (some t) text h = cc h

told_turn-again : (o : Option Text) (why : Text) → told_turn o ≡ again why → o ≡ none
told_turn-again none why h = refl
told_turn-again (some t) why h = cc h

-- What the turn says of the first candidate.
abbrev TellsOf : Option Value → Option Text → Type 0
TellsOf o told =
    (candidate : Fields) × (o ≡ some (obj candidate))
    × (is_capped candidate ≡ false)
    × (told_text candidate ≡ told)

obj-TellsOf :
    (candidate : Fields) (text : Text)
    → parse_candidate (obj candidate) ≡ ended (ok text)
    → TellsOf (some (obj candidate)) (some text)
obj-TellsOf c text h = elim (Bool-cases (is_capped c)) [
  | inl cut ↦ absurd (cc (parse_capped c cut, h))
  | inr whole ↦ (c, refl, whole, told_turn-ok (told_text c) text (sym (parse_told c whole) ∙ h))
]

pub parse_first-ok :
    (o : Option Value) (text : Text) → parse_first o ≡ ended (ok text) → TellsOf o (some text)
unfolding parse_first parse_candidate
parse_first-ok none text h = cc h
parse_first-ok (some null) text h = cc h
parse_first-ok (some (bool b)) text h = cc h
parse_first-ok (some (int n)) text h = cc h
parse_first-ok (some (float t)) text h = cc h
parse_first-ok (some (obj c)) text h = obj-TellsOf c text h
parse_first-ok (some (arr vs)) text h = cc h
parse_first-ok (some (str t)) text h = cc h

pub parse_first-told :
    (o : Option Value) (told : Option Text) → TellsOf o told → parse_first o ≡ told_turn told
unfolding parse_first
parse_first-told o told (c, e, whole, t) = rw (e, parse_first) (parse_told c whole ∙ ap told_turn t)

obj-IsUntold :
    (candidate : Fields) (why : Text)
    → parse_candidate (obj candidate) ≡ again why
    → TellsOf (some (obj candidate)) none
obj-IsUntold c why h = elim (Bool-cases (is_capped c)) [
  | inl cut ↦ absurd (cc (parse_capped c cut, h))
  | inr whole ↦ (c, refl, whole, told_turn-again (told_text c) why (sym (parse_told c whole) ∙ h))
]

pub parse_first-again :
    (o : Option Value) (why : Text) → parse_first o ≡ again why → (o ≡ none) ⊎ TellsOf o none
unfolding parse_first parse_candidate
parse_first-again none why h = inl refl
parse_first-again (some null) why h = cc h
parse_first-again (some (bool b)) why h = cc h
parse_first-again (some (int n)) why h = cc h
parse_first-again (some (float t)) why h = cc h
parse_first-again (some (obj c)) why h = inr (obj-IsUntold c why h)
parse_first-again (some (arr vs)) why h = cc h
parse_first-again (some (str t)) why h = cc h

pub malformed-IsMalformed :
    (body : Option Value)
    → IsMalformed body
    → elim body [ none ↦ malformed | some payload ↦ parse payload ] ≡ malformed
unfolding parse_first
malformed-IsMalformed none h = refl
malformed-IsMalformed (some payload) (inl e) = parse-first payload ∙ rw e refl
malformed-IsMalformed (some payload) (inr t) =
    parse-first payload ∙ parse_first-told (first_candidate payload) none t
