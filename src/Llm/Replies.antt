-- ===== src/Llm/Replies.antt =====
-- When `GeminiClient` of services/integration-api/agent/llm.py answers, and what it sends.
use stpp_connector.Base.{
  ℕ, suc, ◌≡◌, ◌≤◌, ◌<◌, refl, sym, ◌∙◌, Bool, true, false, Option, none, some, Text, codes, ok,
  ◌↔◌, ◌⊎◌, inl, inr, Bool-cases, arith, leb, ◌==◌, ◌||◌,
}
use stpp_connector.Json.{Value}
use stpp_connector.Http.{Response, no_response, response}
use stpp_connector.Llm.Retry.{
  Turn, ended, again, counted, complete_twice-Answers, complete_twice-ended, complete_twice-again,
}
use stpp_connector.Llm.Gemini.{
  GeminiClient, url_of, body_of, malformed, parse, read_response, complete,
}
use stpp_connector.Llm.Candidates.{
  first_candidate, Holds, IsMalformed, IsTransient, parse-first, parse_first-ok, parse_first-told,
  parse_first-again, malformed-IsMalformed,
}

-- The branches on the status.
retried :
    (status : ℕ) → (status ≡ 429) ⊎ (500 ≤ status) → (leb 500 status || (status == 429)) ≡ true
retried status h = ground arith

not_retried : (status : ℕ) → status < 400 → (leb 500 status || (status == 429)) ≡ false
not_retried status h = ground arith

below_400 : (status : ℕ) → leb 400 status ≡ false → status < 400
below_400 status h = ground arith

read-IsTransient : (r : Response) → IsTransient r → (why : Text) × (read_response r ≡ again why)
unfolding read_response
read-IsTransient (no_response why) h = (_, refl)
read-IsTransient (response status body) (inl e) =
    (codes "HTTP error status", rw (read_response, retried status (inl e)) refl)
read-IsTransient (response status body) (inr (inl e)) =
    (codes "HTTP error status", rw (read_response, retried status (inr e)) refl)
read-IsTransient (response status body) (inr (inr (low, bad))) =
    let kept : leb 400 status ≡ false = ground arith in
    (
      codes "malformed response body",
      rw (read_response, not_retried status low, kept) (malformed-IsMalformed body bad),
    )

IsTransient-body :
    (body : Option Value) (why : Text)
    → elim body [ none ↦ malformed | some payload ↦ parse payload ] ≡ again why
    → IsMalformed body
IsTransient-body none why h = tt
IsTransient-body (some payload) why h =
    parse_first-again (first_candidate payload) why (sym (parse-first payload) ∙ h)

IsTransient-read : (r : Response) (why : Text) → read_response r ≡ again why → IsTransient r
unfolding read_response
IsTransient-read (no_response w) why h = tt
IsTransient-read (response status body) why h =
    elim (Bool-cases (leb 500 status || (status == 429))) [
      | inl e ↦ ground arith
      | inr e ↦ elim (Bool-cases (leb 400 status)) [
        | inl f ↦ absurd (cc (rw (e, f, read_response) at h))
        | inr f ↦
            inr
              (inr (below_400 status f, IsTransient-body body why (rw (e, f, read_response) at h)))
      ]
    ]

read-Holds : (r : Response) (text : Text) → Holds r text → read_response r ≡ ended (ok text)
unfolding read_response
read-Holds (no_response why) text h = elim h [ ]
read-Holds (response status none) text h = elim h [ ]
read-Holds (response status (some payload)) text (low, t) =
    let kept : leb 400 status ≡ false = ground arith in
    rw (read_response, not_retried status low, kept)
      (parse-first payload ∙ parse_first-told (first_candidate payload) (some text) t)

Holds-read : (r : Response) (text : Text) → read_response r ≡ ended (ok text) → Holds r text
unfolding read_response
Holds-read (no_response why) text h = cc h
Holds-read (response status body) text h = elim (Bool-cases (leb 500 status || (status == 429))) [
  | inl e ↦ absurd (cc (rw (e, read_response) at h))
  | inr e ↦ elim (Bool-cases (leb 400 status)) [
    | inl f ↦ absurd (cc (rw (e, f, read_response) at h))
    | inr f ↦ in_body status body text f (rw (e, f, read_response) at h)
  ]
]
  where
    in_body :
        (status : ℕ) (body : Option Value) (text : Text)
        → leb 400 status ≡ false
        → elim body [ none ↦ malformed | some payload ↦ parse payload ] ≡ ended (ok text)
        → Holds (response status body) text
    in_body status none text f h = absurd (cc h)
    in_body status (some payload) text f h = (
      below_400 status f,
      parse_first-ok (first_candidate payload) text (sym (parse-first payload) ∙ h),
    )

module _ {W : Type 0} (post : Text × Value → W → Response × W) (client : GeminiClient)
    (prompt : Text) (json_mode : Bool) (w : W) where
  abbrev request : Text × Value
  request = (url_of client, body_of client prompt json_mode)

  abbrev pub first_reply : Response
  first_reply = (post request w).0

  abbrev pub second_reply : Response
  second_reply = (post request (post request w).1).0

  -- The client returns a text exactly if the endpoint's first reply holds it, or if the first reply
  -- is transient (no response, status 429 or at least 500, or a malformed body with a status below
  -- 400) and the second reply holds it. A reply holds a text if its status is below 400 and the
  -- first candidate of its body was not cut at the cap and has the text in its parts.
  pub complete-Answers :
      (text : Text)
      → ((complete post client prompt json_mode w).0 ≡ ok text)
        ↔ (Holds first_reply text ⊎ (IsTransient first_reply × Holds second_reply text))
  unfolding complete
  complete-Answers text =
      let (to, from) = complete_twice-Answers read_response post request w text in
      (
        λ h. elim (to h) [
          | inl e ↦ inl (Holds-read first_reply text e)
          | inr ((why, e), f) ↦
              inr (IsTransient-read first_reply why e, Holds-read second_reply text f)
        ],
        λ h. from (elim h [
          | inl e ↦ inl (read-Holds first_reply text e)
          | inr (e, f) ↦ inr (read-IsTransient first_reply e, read-Holds second_reply text f)
        ]),
      )

  -- Whatever the endpoint replies, a completion sends two requests if the first reply is transient
  -- (as in complete-Answers), and one if it is not.
  pub complete-IsSent :
      (n : ℕ)
      → (IsTransient first_reply
          × ((complete (counted post) client prompt json_mode (w, n)).1.1 ≡ suc (suc n)))
        ⊎ (¬ IsTransient first_reply
            × ((complete (counted post) client prompt json_mode (w, n)).1.1 ≡ suc n))
  unfolding complete
  complete-IsSent n = by_turn (read_response first_reply) refl
    where
      by_turn :
          (turn : Turn)
          → read_response first_reply ≡ turn
          → (IsTransient first_reply
              × ((complete (counted post) client prompt json_mode (w, n)).1.1 ≡ suc (suc n)))
            ⊎ (¬ IsTransient first_reply
                × ((complete (counted post) client prompt json_mode (w, n)).1.1 ≡ suc n))
      by_turn (ended result) e = inr (
        λ t. let (why, f) = read-IsTransient first_reply t in cc,
        complete_twice-ended read_response post request w n result e,
      )
      by_turn (again why) e = inl (
        IsTransient-read first_reply why e,
        complete_twice-again read_response post request w n why e,
      )
