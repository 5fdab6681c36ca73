-- ===== src/Context.antt =====
-- services/integration-api/agent/context.py: the terms of a query and what is loaded for the
-- planner.
pub mod Terms
use stpp_connector.Base.{
  ℕ, zero, suc, ◌-◌, Bool, true, false, not, ◌&&◌, ◌||◌, Option, none, some, List, [], ◌∷◌, ◌++◌,
  Text, codes, mem_text, is_empty, length, map, if◌then◌else◌, ◌==◌, leb,
}
use stpp_connector.Json.{Value, Fields, null, str, obj, arr, end, field, items_of, truthy}
use stpp_connector.Registry.{Observed}
use stpp_connector.Registry.Cache.{collect}

-- `[a-z0-9]`, and the characters that may follow.
abbrev pub is_head : ℕ → Bool
is_head c = (leb 97 c && leb c 122) || (leb 48 c && leb c 57)

abbrev pub is_tail : ℕ → Bool
is_tail c = is_head c || (c == 45)

-- `_TOKEN_RE.findall`: outside a token, and after the characters of one.
unfoldable pub scan : Option Text → Text → List Text
scan none [] = []
scan (some token) [] = token ∷ []
scan none (c ∷ s) = elim (is_head c) [ true ↦ scan (some (c ∷ [])) s | false ↦ scan none s ]
scan (some token) (c ∷ s) = elim (is_tail c) [
  | true ↦ scan (some (token ++ c ∷ [])) s
  | false ↦ token ∷ scan none s
]

abbrev pub stopwords : List Text
stopwords =
    codes "the"
    ∷ codes "and"
    ∷ codes "for"
    ∷ codes "had"
    ∷ codes "has"
    ∷ codes "have"
    ∷ codes "was"
    ∷ codes "were"
    ∷ codes "are"
    ∷ codes "with"
    ∷ codes "what"
    ∷ codes "which"
    ∷ codes "who"
    ∷ codes "whom"
    ∷ codes "how"
    ∷ codes "many"
    ∷ codes "much"
    ∷ codes "give"
    ∷ codes "get"
    ∷ codes "show"
    ∷ codes "list"
    ∷ codes "find"
    ∷ codes "tell"
    ∷ codes "about"
    ∷ codes "did"
    ∷ codes "does"
    ∷ codes "down"
    ∷ codes "break"
    ∷ codes "all"
    ∷ codes "any"
    ∷ codes "per"
    ∷ codes "our"
    ∷ codes "their"
    ∷ codes "its"
    ∷ codes "this"
    ∷ codes "that"
    ∷ codes "these"
    ∷ codes "those"
    ∷ codes "from"
    ∷ codes "into"
    ∷ codes "onto"
    ∷ codes "year"
    ∷ codes "years"
    ∷ codes "you"
    ∷ codes "can"
    ∷ codes "please"
    ∷ []

abbrev pub is_term : List Text → Text → Bool
is_term seen token =
    leb 3 (length token) && (not (mem_text token stopwords) && not (mem_text token seen))

unfoldable pub add_terms : List Text → List Text → List Text
add_terms seen [] = seen
add_terms seen (t ∷ ts) = add_terms (if is_term seen t then seen ++ t ∷ [] else seen) ts

-- `lower` stands for `str.lower`.
unfoldable pub extract_terms : (Text → Text) → Text → List Text
extract_terms lower query = add_terms [] (scan none (lower query))

abbrev pub build_observed_enums : List (Text × Text) → Observed
build_observed_enums rows = collect rows []

-- The columns of PROPOSAL_MATCH_SQL and of PERSONNEL_MATCH_SQL.
pub record ProposalRow : Type 0 where
  pub proposal_number : Value
  pub proposal_title : Value
  pub submitting_entity_name : Value
  pub fiscal_year : Value

pub record PersonRow : Type 0 where
  pub person_orcid : Value
  pub first_name : Option Text
  pub last_name : Option Text
  pub proposal_numbers : List Value

unfoldable pub proposal_match : ProposalRow → Value
proposal_match row = obj (
    field (codes "type") (str (codes "proposal")) (
      field (codes "proposal_number") row.proposal_number (
        field (codes "proposal_title") row.proposal_title (
          field (codes "submitting_entity_name") row.submitting_entity_name
            (field (codes "fiscal_year") row.fiscal_year end)))))

-- `" ".join(filter(None, [first, last]))`
abbrev pub some_text : Option Text → Text
some_text none = []
some_text (some t) = t

unfoldable pub full_name : Text → Text → Text
full_name [] last = last
full_name (c ∷ first) [] = c ∷ first
full_name (c ∷ first) (d ∷ last) = (c ∷ first) ++ codes " " ++ d ∷ last

unfoldable pub person_match : PersonRow → Value
person_match row = obj (
    field (codes "type") (str (codes "person")) (
      field (codes "person_orcid") row.person_orcid (
        field (codes "name") (str (full_name (some_text row.first_name) (some_text row.last_name)))
          (field (codes "proposal_numbers") (arr (items_of row.proposal_numbers)) end))))

pub record PlannerInputs : Type 0 where
  pub planner_context : Value
  pub catalog_matches : List Value
  pub observed_enums : Observed

-- `json.loads` of a text, and `raw_context or {}` of anything else.
unfoldable pub context_of : (Text → Value) → Option Value → Value
context_of loads none = obj end
context_of loads (some (str s)) = loads s
context_of loads (some v) = if truthy v then v else obj end

abbrev pub pattern_of : Text → Text
pattern_of t = codes "%" ++ t ++ codes "%"

-- The queries of one load. A query that raises ends the load, which then returns nothing; only
-- loads that return are modelled. `proposals` and `persons` take their patterns and LIMIT.
pub record Database (W : Type 0) : Type 0 where
  pub planner_context : W → Option Value × W
  pub observed_enums : W → List (Text × Text) × W
  pub proposals : List Text → ℕ → W → List ProposalRow × W
  pub persons : List Text → ℕ → W → List PersonRow × W

module _ {W : Type 0} (database : Database W) (lower : Text → Text) (max_matches : ℕ) where
  unfoldable pub person_matches : List Text → ℕ → W → List Value × W
  person_matches patterns zero w = ([], w)
  person_matches patterns (suc n) w =
      let (rows, after) = database.persons patterns (suc n) w in (map person_match rows, after)

  unfoldable pub matches_of : List Text → W → List Value × W
  matches_of [] w = ([], w)
  matches_of (t ∷ ts) w =
      let patterns = map pattern_of (t ∷ ts) in
      let (rows, after) = database.proposals patterns max_matches w in
      let found = map proposal_match rows in
      let (persons, last) = person_matches patterns (max_matches - length found) after in
      (found ++ persons, last)

  unfoldable pub load : (Text → Value) → Text → W → PlannerInputs × W
  load loads query w =
      let (raw, second) = database.planner_context w in
      let (enums, third) = database.observed_enums second in
      let (matches, last) = matches_of (extract_terms lower query) third in
      (
        record {
          planner_context = context_of loads raw;
          catalog_matches = matches;
          observed_enums = build_observed_enums enums;
        },
        last,
      )
