-- ===== src/Hrana/Response/Wire.antt =====
-- The JSON in which a server of the Hrana protocol writes a response: every field is there, a nil
-- pointer is null, a replication index is a text in decimal, and behind the fields of an object come
-- others that the client does not know.
use libsql_client_go.Base.{ℕ, ◌<◌, ◌*◌, ◌%◌, ◌^◌, Option, none, some, List, [], ◌∷◌}
use libsql_client_go.Base.Texts.{Text, codes}
use libsql_client_go.Base.Decimal.{ℤ, pos, negsuc, format_int}
use libsql_client_go.Hrana.Value.{Value, Payload, absent, float, other}
use libsql_client_go.Hrana.Json.{Json, Items, Fields, null, number, str, arr, obj, nil, cons, field}
use libsql_client_go.Hrana.Response.{
  Column, StmtResult, HranaError, BatchResult, StreamResponse, StreamResult, PipelineResponse,
}

-- How a server writes a float, and the unknown fields.
pub record Server : Type 0 where
  pub literal : ℕ → Text
  pub extra : Fields

abbrev pub text_or_null : Option Text → Json
text_or_null none = null
text_or_null (some s) = str s

abbrev pub index_or_null : Option ℕ → Json
index_or_null none = null
index_or_null (some n) = str (format_int (pos n))

abbrev pub list_of {ℓ} : {A : Type ℓ} → (A → Json) → List A → Items
list_of write [] = nil
list_of write (a ∷ rest) = cons (write a) (list_of write rest)

abbrev pub or_null {ℓ} : {A : Type ℓ} → (A → Json) → Option A → Json
or_null write none = null
or_null write (some a) = write a

-- The bits of a float64 that JSON can write: neither infinite nor NaN.
abbrev pub IsFinite : ℕ → Type 0
IsFinite x = (x < 2 ^ 64) × (x % 2 ^ 63 < 2047 * 2 ^ 52)

-- The payloads that a Value has on the wire.
abbrev pub IsPayload : Payload → Type 0
IsPayload (other s) = ⊥
IsPayload (float x) = IsFinite x
IsPayload p = Unit {0}

abbrev pub IsInt32 : ℤ → Type 0
IsInt32 (pos n) = n < 2 ^ 31
IsInt32 (negsuc n) = n < 2 ^ 31

abbrev pub IsIndex : Option ℕ → Type 0
IsIndex none = Unit {0}
IsIndex (some n) = n < 2 ^ 64

abbrev pub All {ℓ κ} : {A : Type ℓ} → (A → Type κ) → List A → Type κ
All P [] = Unit
All P (a ∷ rest) = P a × All P rest

abbrev pub Holds {ℓ κ} : {A : Type ℓ} → (A → Type κ) → Option A → Type κ
Holds P none = Unit
Holds P (some a) = P a

abbrev pub IsValue : Value → Type 0
IsValue v = IsPayload v.value

-- A result whose numbers and values are those of the protocol.
pub record IsStmtResult (r : StmtResult) : Type 0 where
  pub values : All (All IsValue) r.rows
  pub affected : IsInt32 r.affected_row_count
  pub index : IsIndex r.replication_index

pub record IsBatchResult (b : BatchResult) : Type 0 where
  pub results : All (Holds IsStmtResult) b.step_results
  pub index : IsIndex b.replication_index

abbrev pub fields : List (Text × Json) → Fields → Fields
fields [] rest = rest
fields ((k, j) ∷ known) rest = field k j (fields known rest)

module _ (server : Server) where
  open server use {literal, extra}

  abbrev pub write_payload : Payload → Json
  write_payload absent = null
  write_payload (Payload.str s) = str s
  write_payload (float x) = number (literal x)
  write_payload (other s) = null

  abbrev pub object : List (Text × Json) → Json
  object known = obj (fields known extra)

  abbrev pub value_fields : Value → List (Text × Json)
  value_fields v =
      (codes "type", str v.kind)
      ∷ (codes "value", write_payload v.value)
      ∷ (codes "base64", text_or_null v.base64)
      ∷ []

  abbrev pub write_value : Value → Json
  write_value v = object (value_fields v)

  abbrev pub column_fields : Column → List (Text × Json)
  column_fields c =
      (codes "name", text_or_null c.name) ∷ (codes "decltype", text_or_null c.decltype) ∷ []

  abbrev pub write_column : Column → Json
  write_column c = object (column_fields c)

  abbrev pub write_row : List Value → Json
  write_row vs = arr (list_of write_value vs)

  abbrev pub stmt_result_fields : StmtResult → List (Text × Json)
  stmt_result_fields r =
      (codes "cols", arr (list_of write_column r.cols))
      ∷ (codes "rows", arr (list_of write_row r.rows))
      ∷ (codes "affected_row_count", number (format_int r.affected_row_count))
      ∷ (codes "last_insert_rowid", text_or_null r.last_insert_row_id)
      ∷ (codes "replication_index", index_or_null r.replication_index)
      ∷ []

  abbrev pub write_stmt_result : StmtResult → Json
  write_stmt_result r = object (stmt_result_fields r)

  abbrev pub error_fields : HranaError → List (Text × Json)
  error_fields e = (codes "message", str e.message) ∷ (codes "code", text_or_null e.code) ∷ []

  abbrev pub write_error : HranaError → Json
  write_error e = object (error_fields e)

  abbrev pub batch_result_fields : BatchResult → List (Text × Json)
  batch_result_fields b =
      (codes "step_results", arr (list_of (or_null write_stmt_result) b.step_results))
      ∷ (codes "step_errors", arr (list_of (or_null write_error) b.step_errors))
      ∷ (codes "replication_index", index_or_null b.replication_index)
      ∷ []

  abbrev pub write_batch_result : BatchResult → Json
  write_batch_result b = object (batch_result_fields b)

  -- A missing result is no field.
  abbrev pub stream_response_fields : StreamResponse → List (Text × Json)
  stream_response_fields r = elim r.result [
    | none ↦ (codes "type", str r.kind) ∷ []
    | some j ↦ (codes "type", str r.kind) ∷ (codes "result", j) ∷ []
  ]

  abbrev pub write_stream_response : StreamResponse → Json
  write_stream_response r = object (stream_response_fields r)

  abbrev pub stream_result_fields : StreamResult → List (Text × Json)
  stream_result_fields r =
      (codes "type", str r.kind)
      ∷ (codes "response", or_null write_stream_response r.response)
      ∷ (codes "error", or_null write_error r.error)
      ∷ []

  abbrev pub write_stream_result : StreamResult → Json
  write_stream_result r = object (stream_result_fields r)

  abbrev pub pipeline_response_fields : PipelineResponse → List (Text × Json)
  pipeline_response_fields p =
      (codes "baton", str p.baton)
      ∷ (codes "base_url", str p.base_url)
      ∷ (codes "results", arr (list_of write_stream_result p.results))
      ∷ []

  abbrev pub write_pipeline_response : PipelineResponse → Json
  write_pipeline_response p = object (pipeline_response_fields p)
