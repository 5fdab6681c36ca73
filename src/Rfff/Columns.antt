-- ===== src/Rfff/Columns.antt =====
-- The column constants of services/mcp-server/app/rfff_tools.py.
use stpp_connector.Base.{List, [], ◌∷◌, Text, codes}

abbrev pub proposal_filter_fields : List Text
proposal_filter_fields =
    codes "fiscal_year"
    ∷ codes "reviewing_component"
    ∷ codes "reviewing_subcomponent"
    ∷ codes "assessment_state"
    ∷ codes "mitigation_status"
    ∷ codes "award_state"
    ∷ codes "award_type"
    ∷ codes "review_type"
    ∷ []

abbrev pub person_filter_fields : List Text
person_filter_fields =
    codes "factor1_assessment"
    ∷ codes "factor2_assessment"
    ∷ codes "factor3_assessment"
    ∷ codes "factor4_assessment"
    ∷ codes "person_overall_assessment"
    ∷ []

abbrev pub agg_proposal_fields : List Text
agg_proposal_fields =
    codes "fiscal_year"
    ∷ codes "reviewing_component"
    ∷ codes "reviewing_subcomponent"
    ∷ codes "assessment_state"
    ∷ codes "mitigation_status"
    ∷ codes "award_state"
    ∷ []

abbrev pub agg_person_fields : List Text
agg_person_fields = person_filter_fields

abbrev pub proposal_columns : List Text
proposal_columns =
    codes "proposal_number"
    ∷ codes "fiscal_year"
    ∷ codes "ssa"
    ∷ codes "opportunity_number"
    ∷ codes "proposal_title"
    ∷ codes "submitting_entity_uei"
    ∷ codes "submitting_entity_name"
    ∷ codes "review_type"
    ∷ codes "reviewing_component"
    ∷ codes "reviewing_subcomponent"
    ∷ codes "assessment_state"
    ∷ codes "approved_date"
    ∷ codes "review_notes"
    ∷ codes "mitigation_status"
    ∷ codes "mitigation_strategy_proposal"
    ∷ codes "mitigation_explanation"
    ∷ codes "award_type"
    ∷ codes "award_state"
    ∷ codes "fain"
    ∷ codes "awarded_date"
    ∷ codes "award_pop_start"
    ∷ codes "award_pop_end"
    ∷ []

abbrev pub personnel_columns : List Text
personnel_columns =
    codes "person_orcid"
    ∷ codes "first_name"
    ∷ codes "middle_name"
    ∷ codes "last_name"
    ∷ codes "proposal_role"
    ∷ codes "affiliation_uei"
    ∷ codes "affiliation_name"
    ∷ codes "factor1_assessment"
    ∷ codes "factor2_assessment"
    ∷ codes "factor3_assessment"
    ∷ codes "factor4_assessment"
    ∷ codes "person_overall_assessment"
    ∷ codes "multiple_mitigation"
    ∷ codes "mitigation_explanation_person"
    ∷ []
