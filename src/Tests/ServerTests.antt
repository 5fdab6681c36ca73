-- ===== src/Tests/ServerTests.antt =====
-- The envelope and the gate of the MCP server, and the events of a job, on small inputs.
use stpp_connector.Base.{ℕ, ◌≡◌, refl, true, false, List, [], ◌∷◌, Text, codes, arith, ok}
use stpp_connector.Json.{Value, Items, str, obj, nil, cons, end, field}
use stpp_connector.Hygiene.{Envelope, count_items, envelope}
use stpp_connector.Sink.{SinkCall, SinkState, StoreWorks, perform_all}
use stpp_connector.Sink.Order.{IsInStep, perform_all-IsInStep}
use stpp_connector.Hygiene.Honest.{IsHonest, envelope-IsHonest}
use stpp_connector.Dispatch.{User, Handler, ServerState, dispatch_tool_call}
use stpp_connector.Dispatch.Gate.{IsAudited, dispatch_tool_call-IsAudited}

abbrev notes : Items
notes = cons (str (codes "short")) (cons (str (codes "a long note")) (cons (str (codes "c")) nil))

-- Two of three rows, the second cut to six characters.
notes_cut : envelope notes 3 2 6 ≡ record {
  rows = cons (str (codes "short")) (cons (str (codes "a long…")) nil);
  total = 3;
  returned = 2;
  truncated = true;
}
unfolding envelope stpp_connector.Hygiene.truncate_items stpp_connector.Hygiene.cut_text
    stpp_connector.Hygiene.first_items count_items
notes_cut = refl

envelope-IsHonest_example : IsHonest notes 2 6 (envelope notes 3 2 6)
unfolding count_items
envelope-IsHonest_example = envelope-IsHonest notes 3 2 6 (omega arith)

abbrev reader : User
reader = record {
  sub = codes "u1";
  name = codes "Ana";
  component = codes "DHA";
  roles = codes "rfff_reader" ∷ [];
}

abbrev wdp_registry : List (Text × Value)
wdp_registry =
    (
      codes "search_wdp_person",
      obj (
          field (codes "x-role") (str (codes "wdp_reader"))
            (field (codes "inputSchema") (obj end) end)),
    )
    ∷ []

abbrev counting : List (Text × Handler ℕ)
counting = (codes "search_wdp_person", λ args n. (ok end, 1)) ∷ []

abbrev untouched : ServerState ℕ
untouched = record { world = 0; trace = [] }

-- The reader has not the role of the tool.
dispatch_tool_call-IsAudited_example :
    IsAudited
      (λ schema args. [])
      (λ ts. [])
      (λ fs. [])
      wdp_registry
      counting
      reader
      (codes "search_wdp_person")
      end
      untouched
      (dispatch_tool_call
        (λ schema args. [])
        (λ ts. [])
        (λ fs. [])
        wdp_registry
        counting
        reader
        (codes "search_wdp_person")
        end
        untouched)
dispatch_tool_call-IsAudited_example =
    dispatch_tool_call-IsAudited (λ schema args. []) (λ ts. []) (λ fs. []) wdp_registry counting
      reader (codes "search_wdp_person") end untouched

abbrev new_sink : SinkState
new_sink = record { seq = 0; stored = []; queued = [] }

-- The store refuses the event of the ping.
abbrev three_calls : List (SinkCall × StoreWorks)
three_calls =
    (SinkCall.job, (true, true))
    ∷ (SinkCall.ping, (true, false))
    ∷ (SinkCall.done (codes "failed"), (true, true))
    ∷ []

perform_all-IsInStep_example : IsInStep (perform_all three_calls new_sink)
perform_all-IsInStep_example =
    perform_all-IsInStep three_calls new_sink (record { same = refl; growing = omega arith })
