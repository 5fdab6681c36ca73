-- ===== src/Rfff/Rows.antt =====
-- What the tools of services/mcp-server/app/rfff_tools.py make of database rows and arguments.
use stpp_connector.Base.{
  ℕ, suc, Bool, ◌||◌, Option, none, some, List, [], ◌∷◌, ◌++◌, Text, codes, text_eq, min,
  lookup_text, Result, ok, err, ◌>>=◌, if◌then◌else◌,
}
use stpp_connector.Base.Numerals.{decimal}
use stpp_connector.Json.{
  ℤ, pos, negsuc, Value, Fields, Items, null, bool, int, str, arr, obj, nil, cons, end, field,
  put_field, truthy,
}
use stpp_connector.Dispatch.{Fault, crash}

-- A value of a database row: a date, by its `isoformat`, or one that is JSON as it stands.
pub data Cell : Type 0 where
  date : Text → Cell
  plain : Value → Cell

abbrev pub Row : Type 0
Row = List (Text × Cell)

abbrev pub needed : {A : Type 0} → Option A → Result Fault A
needed none = err crash
needed (some a) = ok a

-- `int(limit)` for an integer or a truth value; the schema allows no other.
unfoldable pub int_of_limit : Value → Result Fault ℤ
int_of_limit (int z) = ok z
int_of_limit (bool b) = ok (pos (if b then 1 else 0))
int_of_limit v = err crash

abbrev pub min_ℤ : ℤ → ℕ → ℤ
min_ℤ (pos n) m = pos (min n m)
min_ℤ (negsuc n) m = negsuc n

-- `_clamp_limit(args.get("limit"), max_rows)`
unfoldable pub clamp_limit : Option Value → ℕ → Result Fault ℤ
clamp_limit none max_rows = ok (pos max_rows)
clamp_limit (some null) max_rows = ok (pos max_rows)
clamp_limit (some limit) max_rows = int_of_limit limit >>= λ z. ok (min_ℤ z max_rows)

unfoldable pub serialize : Cell → Value
serialize (date iso) = str iso
serialize (plain v) = v

-- `list(value) if value else []`, for a list or None.
abbrev pub list_or_empty : Value → Value
list_or_empty v = if truthy v then v else arr nil

abbrev pub is_list_column : Text → Bool
is_list_column c =
    text_eq c (codes "mitigation_strategy_proposal") || text_eq c (codes "multiple_mitigation")

unfoldable pub column_value : Text → Row → Result Fault Value
column_value c row = needed (lookup_text c row) >>= λ cell.
    ok (if is_list_column c then list_or_empty (serialize cell) else serialize cell)

-- `_row_dict`
unfoldable pub row_dict : Row → List Text → Result Fault Fields
row_dict row [] = ok end
row_dict row (c ∷ cs) = column_value c row >>= λ v. row_dict row cs >>= λ rest. ok (field c v rest)

unfoldable pub row_dicts : List Row → List Text → Result Fault Items
row_dicts [] columns = ok nil
row_dicts (r ∷ rs) columns =
    row_dict r columns >>= λ d. row_dicts rs columns >>= λ ds. ok (cons (obj d) ds)

-- `row[name]`
abbrev pub cell_at : Text → Row → Result Fault Cell
cell_at name row = needed (lookup_text name row)

abbrev pub plain_at : Text → Row → Result Fault Value
plain_at name row = cell_at name row >>= λ c. ok (serialize c)

-- A text; an ORCID is a key of its table.
abbrev pub text_at : Text → Row → Result Fault Text
text_at name row = plain_at name row >>= λ v. elim v [ str s ↦ ok s | _ ↦ err crash ]

-- A count; the database returns no other value where the tools read one.
abbrev pub as_count : Value → Result Fault ℕ
as_count (int (pos n)) = ok n
as_count v = err crash

-- `rows[0]["_total"] if rows else 0`
unfoldable pub total_of : List Row → Result Fault ℕ
total_of [] = ok 0
total_of (r ∷ rs) = plain_at (codes "_total") r >>= as_count

-- `_jsonb`, where `loads` is `json.loads`
unfoldable pub jsonb : (Text → Result Text Value) → Value → Result Fault Value
jsonb loads (str s) = elim (loads s) [ ok v ↦ ok v | err e ↦ err crash ]
jsonb loads null = ok (obj end)
jsonb loads v = ok v

abbrev pub file_ref : (Text → Result Text Value) → Row → Result Fault Value
file_ref loads r = plain_at (codes "scope") r >>= λ scope.
    plain_at (codes "person_orcid") r >>= λ orcid. plain_at (codes "filename") r >>= λ filename.
    plain_at (codes "metadata") r >>= λ raw. jsonb loads raw >>= λ metadata. ok (
      obj (
        field (codes "scope") scope (
          field (codes "person_orcid") orcid
            (field (codes "filename") filename (field (codes "metadata") metadata end)))))

unfoldable pub file_refs : (Text → Result Text Value) → List Row → Result Fault Items
file_refs loads [] = ok nil
file_refs loads (r ∷ rs) = file_ref loads r >>= λ v. file_refs loads rs >>= λ vs. ok (cons v vs)

-- One person of `search_personnel`, without proposals yet.
abbrev pub Person : Type 0
Person = Fields × List Value

unfoldable pub person_of : Row → Result Fault (Text × Person)
person_of r = text_at (codes "person_orcid") r >>= λ orcid.
    row_dict r
      (codes "person_orcid" ∷ codes "first_name" ∷ codes "middle_name" ∷ codes "last_name" ∷ [])
    >>= λ fields. ok (orcid, (fields, []))

-- `{field: row[f"g{i}"] for i, field in enumerate(group_by)}`
unfoldable pub bucket_fields : ℕ → List Text → Row → Fields → Result Fault Fields
bucket_fields i [] row group = ok group
bucket_fields i (g ∷ gs) row group = plain_at (codes "g" ++ decimal i) row >>= λ v.
    bucket_fields (suc i) gs row (put_field g v group)

-- `{"group": …, "count": …}`
unfoldable pub buckets : List Text → List Row → Result Fault Items
buckets group_by [] = ok nil
buckets group_by (r ∷ rs) = bucket_fields 0 group_by r end >>= λ group.
    plain_at (codes "count") r >>= λ n. buckets group_by rs >>= λ rest.
    ok (cons (obj (field (codes "group") (obj group) (field (codes "count") n end))) rest)
