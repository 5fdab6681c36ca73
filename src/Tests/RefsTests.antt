-- ===== src/Tests/RefsTests.antt =====
-- The reference language on the shapes of plan that the demo queries give.
use stpp_connector.Base.{
  ℕ, ◌≡◌, refl, true, false, none, some, List, [], ◌∷◌, ◌++◌, ◌↔◌, arith, Text, codes, text_eq,
  strip_prefix, ok, err, Member, ◌≢◌,
}
use stpp_connector.Base.Numerals.{decimal, is_digit, is_digit_char, digit_value, int_of, int_loop}
use stpp_connector.Json.{elements, lookup_key, Value, null, str, arr, obj, nil, cons, end, field}
use stpp_connector.Refs.Syntax.{
  Ref, Segment, star, parse_body, step_id_of, find_bracket, integer, segments_on, next_segment,
  field_segment, span_field, index_segment, value_error, out_of_fuel, syntax_error, step_id_zero,
  parse_ref,
}
use stpp_connector.Refs.RoundTrip.{show_ref, parse_ref-show}
use stpp_connector.Refs.Accepted.{IsWellFormed, parse_ref-ne-out_of_fuel, parse_ref-IsWellFormed}
use stpp_connector.Refs.Find.{key, Found, walk, find_refs}
use stpp_connector.Refs.Places.{At, here, in_dict, named, after, IsRefAt}
use stpp_connector.Refs.Places.Complete.{find_refs-exact}
use stpp_connector.Refs.Resolve.{Results, resolve, start_values, follow, list_of, items_in, item_at}
use stpp_connector.Refs.Calls.{
  FanPlan, clash, take_in, round, choose, calls_of, substitute, plan_step_calls,
}
use stpp_connector.Refs.FanOut.Bounds.{IsBounded}
use stpp_connector.Refs.FanOut.Empty.{HasEmptyRef}
use stpp_connector.Refs.FanOut.Counts.{IsCounted, plan_step_calls-IsCounted}
use stpp_connector.Refs.FanOut.Values.{IsValueOf}
use stpp_connector.Refs.FanOut.Filled.{plan_step_calls-fills, plan_step_calls-keeps}

-- Naming this on an `unfolding` line opens all of the reference language.
unfoldable pub running : Unit {0}
unfolding strip_prefix parse_body step_id_of find_bracket is_digit is_digit_char digit_value integer
    int_of int_loop segments_on next_segment field_segment span_field index_segment text_eq
    parse_ref find_refs walk resolve start_values follow list_of items_in item_at elements
    lookup_key clash take_in round choose calls_of substitute plan_step_calls
running = tt

abbrev orcid_segments : List Segment
orcid_segments = Segment.field (codes "data") ∷ star ∷ Segment.field (codes "orcid") ∷ []

abbrev pub orcid_text : Text
orcid_text = codes "$steps[1].data[*].orcid"

abbrev orcid_ref : Ref
orcid_ref = record { step_id = 1; segments = orcid_segments; raw = orcid_text }

orcid_read : parse_ref orcid_text ≡ ok (some orcid_ref)
unfolding running
orcid_read = refl

parse_ref-show_example :
    parse_ref (show_ref 1 orcid_segments)
    ≡ ok (some (record { step_id = 1; segments = orcid_segments; raw = show_ref 1 orcid_segments }))
parse_ref-show_example =
    parse_ref-show 1 orcid_segments (omega arith) (unfold decimal in omega arith)
      ((refl, refl), (tt, ((refl, refl), tt)))

parse_ref-ne-out_of_fuel_example : parse_ref (codes "$steps[1].") ≢ err out_of_fuel
parse_ref-ne-out_of_fuel_example = parse_ref-ne-out_of_fuel (codes "$steps[1].")

parse_ref-IsWellFormed_example : IsWellFormed orcid_text orcid_ref
parse_ref-IsWellFormed_example = parse_ref-IsWellFormed orcid_text orcid_ref orcid_read

-- `"²".isdigit()` is true and `int("²")` raises: the exception is no RefSyntaxError.
abbrev ref_open : ℕ → Text
ref_open c = codes "$steps[" ++ (c ∷ codes "]")

superscript_index : parse_ref (ref_open 178) ≡ err (value_error (ref_open 178))
unfolding running
superscript_index = refl

step_zero : parse_ref (codes "$steps[0]") ≡ err (syntax_error step_id_zero (codes "$steps[0]"))
unfolding running
step_zero = refl

-- {"orcid": "$steps[1].data[*].orcid", "name": "x"}
abbrev person_args : Value
person_args =
    obj (field (codes "orcid") (str orcid_text) (field (codes "name") (str (codes "x")) end))

abbrev found_person : Found
found_person = (key (codes "orcid") ∷ [], orcid_ref) ∷ []

person_found : find_refs person_args ≡ ok found_person
unfolding running
person_found = refl

orcid_place : IsRefAt person_args (key (codes "orcid") ∷ []) orcid_ref
orcid_place = (in_dict (named here), orcid_read)

find_refs-exact_example :
    Member (key (codes "orcid") ∷ [], orcid_ref) found_person
    ↔ IsRefAt person_args (key (codes "orcid") ∷ []) orcid_ref
find_refs-exact_example =
    find_refs-exact person_args found_person person_found (key (codes "orcid") ∷ []) orcid_ref

abbrev person : Text → Value
person id = obj (field (codes "orcid") (str id) end)

-- Step 1 returned three people, and one row with no ORCID.
abbrev three_people : Results
three_people =
    (
      1,
      record {
        value = obj (
            field (codes "data")
              (arr (
                cons (person (codes "a"))
                  (cons null (cons (person (codes "b")) (cons (person (codes "c")) nil)))))
              end);
        fanned = false;
        failed = false;
      },
    )
    ∷ []

abbrev person_call : Text → Value
person_call id = obj (field (codes "orcid") (str id) (field (codes "name") (str (codes "x")) end))

abbrev two_calls : FanPlan
two_calls = record {
  calls = person_call (codes "a") ∷ person_call (codes "b") ∷ [];
  truncated_count = 1;
  empty = false;
  fanned = true;
}

people_planned : plan_step_calls person_args three_people 2 ≡ ok two_calls
unfolding running
people_planned = refl

plan_step_calls-IsCounted_example :
    IsBounded 2 two_calls
    × (two_calls.empty ≡ true → HasEmptyRef person_args three_people)
    × (two_calls.fanned ≡ false → two_calls.truncated_count ≡ 0)
    × (two_calls.empty ≡ false → IsCounted person_args three_people two_calls)
plan_step_calls-IsCounted_example =
    plan_step_calls-IsCounted person_args three_people 2 two_calls people_planned

plan_step_calls-fills_example :
    (v : Value) × At (person_call (codes "b")) (key (codes "orcid") ∷ []) v
    × IsValueOf three_people orcid_ref 1 v
plan_step_calls-fills_example =
    plan_step_calls-fills person_args three_people 2 two_calls people_planned 1
      (person_call (codes "b")) refl (key (codes "orcid") ∷ []) orcid_ref orcid_place

x_plain : parse_ref (codes "x") ≡ ok none
unfolding running
x_plain = refl

plan_step_calls-keeps_example :
    At (person_call (codes "b")) (key (codes "name") ∷ []) (str (codes "x"))
plan_step_calls-keeps_example =
    plan_step_calls-keeps person_args three_people 2 two_calls people_planned 1
      (person_call (codes "b")) refl (key (codes "name") ∷ []) (codes "x")
      (in_dict (after (named here))) x_plain
