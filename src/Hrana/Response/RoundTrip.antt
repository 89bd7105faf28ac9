-- ===== src/Hrana/Response/RoundTrip.antt =====
-- What a server writes is decoded as it was.
use libsql_client_go.Base.{ℕ, ◌≡◌, refl, ap, ◌∙◌, true, Option, none, some, List}
use libsql_client_go.Base.Texts.{Text, codes, text_eq, to_lower}
use libsql_client_go.Base.Results.{ok, err}
use libsql_client_go.Params.Extract.{member}
use libsql_client_go.Hrana.Value.{Value, Payload, absent, float, other}
use libsql_client_go.Hrana.Json.{Json, str, end, find, find_or_null, as_items, as_pointer}
use libsql_client_go.Hrana.Response.{
  Column, StmtResult, HranaError, BatchResult, StreamResponse, StreamResult, PipelineResponse,
  batch_result, unmarshal, first_error, step_error, Numbers, as_payload, as_value, as_column,
  as_row, as_stmt_result, as_hrana_error, as_batch_result, as_stream_response, as_stream_result,
  as_pipeline_response,
}
use libsql_client_go.Hrana.Response.Wire.{
  All, Holds, IsValue, IsStmtResult, IsBatchResult, Server, or_null, IsPayload, IsFinite,
  write_payload, write_value, fields, column_fields, value_fields, stmt_result_fields, error_fields,
  batch_result_fields, stream_response_fields, stream_result_fields, pipeline_response_fields,
  write_column, write_row, write_stmt_result, write_error, write_batch_result,
  write_stream_response, write_stream_result, write_pipeline_response,
}
use libsql_client_go.Hrana.Response.Objects.{
  known_names, All-every, as_stream_response_lem, as_stream_result_lem, as_pipeline_response_lem,
  each-list_of, as_pointer-obj, find-fields, as_column_lem, as_value_lem, as_stmt_result_lem,
  as_hrana_error_lem, as_batch_result_lem,
}

module _ (numbers : Numbers) (server : Server) where
  open numbers use {float_of}
  open server use {literal, extra}

  -- The fields that the client does not know have none of the names that it reads.
  unfoldable pub Ignored : Type 0
  Ignored = (k : Text) → member k known_names ≡ true → find k extra ≡ none

  -- The literals of the finite floats are read as the floats.
  unfoldable pub ReadsFloats : Type 0
  ReadsFloats = (x : ℕ) → IsFinite x → float_of (literal x) ≡ x

  found :
      Ignored
      → (ps : List (Text × Json)) (k : Text) → member k known_names ≡ true
      → find k (fields ps extra) ≡ find k (fields ps end)
  unfolding Ignored
  found h ps k m = find-fields k ps extra (h k m)

  known :
      Ignored
      → (ps : List (Text × Json)) (k : Text) → member k known_names ≡ true
      → find_or_null k (fields ps extra) ≡ find_or_null k (fields ps end)
  known h ps k m = rw (find_or_null, found h ps k m) refl

  as_column-write_column : Ignored → (c : Column) → as_column numbers (write_column server c) ≡ ok c
  unfolding find text_eq to_lower member
  as_column-write_column h c =
      let get = known h (column_fields server c) in
      as_column_lem numbers _ c (get (codes "name") refl) (get (codes "decltype") refl)

  as_payload-write_payload :
      ReadsFloats → (p : Payload) → IsPayload p → as_payload numbers (write_payload server p) ≡ p
  unfolding as_payload ReadsFloats
  as_payload-write_payload r absent h = refl
  as_payload-write_payload r (Payload.str s) h = refl
  as_payload-write_payload r (float x) h = ap float (r x h)
  as_payload-write_payload r (other s) h = absurd h

  module _ (h : Ignored) (floats : ReadsFloats) where
    as_value-write_value : (v : Value) → IsValue v → as_value numbers (write_value server v) ≡ ok v
    unfolding find text_eq to_lower member
    as_value-write_value v p =
        let get = known h (value_fields server v) in
        as_value_lem numbers _ v (get (codes "type") refl)
          (ap (as_payload numbers) (get (codes "value") refl)
            ∙ as_payload-write_payload floats v.value p)
          (get (codes "base64") refl)

    as_row-write_row :
        (vs : List Value) → All IsValue vs → as_row numbers (write_row server vs) ≡ ok vs
    unfolding as_row as_items
    as_row-write_row vs p =
        each-list_of (write_value server) (as_value numbers) as_value-write_value vs p

    as_stmt_result-write_stmt_result :
        (r : StmtResult)
        → IsStmtResult r
        → as_stmt_result numbers (write_stmt_result server r) ≡ ok r
    unfolding find text_eq to_lower member
    as_stmt_result-write_stmt_result r k =
        let get = known h (stmt_result_fields server r) in
        as_stmt_result_lem numbers _ r _ _ (get (codes "cols") refl)
          (each-list_of (write_column server) (as_column numbers)
            (λ c (u : Unit {0}). as_column-write_column h c) r.cols (All-every (λ c. tt) r.cols))
          (get (codes "rows") refl)
          (each-list_of (write_row server) (as_row numbers) as_row-write_row r.rows k.values)
          (get (codes "affected_row_count") refl) k.affected (get (codes "last_insert_rowid") refl)
          (get (codes "replication_index") refl) k.index

    as_hrana_error-write_error :
        (e : HranaError) → as_hrana_error numbers (write_error server e) ≡ ok e
    unfolding find text_eq to_lower member
    as_hrana_error-write_error e =
        let get = known h (error_fields server e) in
        as_hrana_error_lem numbers _ e (get (codes "message") refl) (get (codes "code") refl)

    stmt_result_pointer :
        (o : Option StmtResult)
        → Holds IsStmtResult o
        → as_pointer (as_stmt_result numbers) (or_null (write_stmt_result server) o) ≡ ok o
    unfolding as_pointer
    stmt_result_pointer none k = refl
    stmt_result_pointer (some r) k =
        as_pointer-obj (as_stmt_result numbers) _ r (as_stmt_result-write_stmt_result r k)

    error_pointer :
        (o : Option HranaError)
        → as_pointer (as_hrana_error numbers) (or_null (write_error server) o) ≡ ok o
    unfolding as_pointer
    error_pointer none = refl
    error_pointer (some e) =
        as_pointer-obj (as_hrana_error numbers) _ e (as_hrana_error-write_error e)

    as_batch_result-write_batch_result :
        (b : BatchResult)
        → IsBatchResult b
        → as_batch_result numbers (write_batch_result server b) ≡ ok b
    unfolding find text_eq to_lower member
    as_batch_result-write_batch_result b k =
        let get = known h (batch_result_fields server b) in
        as_batch_result_lem numbers _ b _ _ (get (codes "step_results") refl)
          (each-list_of (or_null (write_stmt_result server)) (as_pointer (as_stmt_result numbers))
            stmt_result_pointer b.step_results k.results)
          (get (codes "step_errors") refl)
          (each-list_of (or_null (write_error server)) (as_pointer (as_hrana_error numbers))
            (λ o (u : Unit {0}). error_pointer o) b.step_errors (All-every (λ o. tt) b.step_errors))
          (get (codes "replication_index") refl) k.index

    stream_response_found :
        (r : StreamResponse)
        → (find_or_null (codes "type") (fields (stream_response_fields server r) end) ≡ str r.kind)
          × (find (codes "result") (fields (stream_response_fields server r) end) ≡ r.result)
    unfolding find text_eq to_lower
    stream_response_found r =
        elim r.result
          as (λ o.
            let ps = stream_response_fields server (record { kind = r.kind; result = o }) in
            (find_or_null (codes "type") (fields ps end) ≡ str r.kind)
            × (find (codes "result") (fields ps end) ≡ o)) [
              | none ↦ (refl, refl)
              | some j ↦ (refl, refl)
            ]

    as_stream_response-write_stream_response :
        (r : StreamResponse) → as_stream_response numbers (write_stream_response server r) ≡ ok r
    unfolding find text_eq to_lower member
    as_stream_response-write_stream_response r =
        let (kind, result) = stream_response_found r in
        as_stream_response_lem numbers _ r
          (known h (stream_response_fields server r) (codes "type") refl ∙ kind)
          (found h (stream_response_fields server r) (codes "result") refl ∙ result)

    response_pointer :
        (o : Option StreamResponse)
        → as_pointer (as_stream_response numbers) (or_null (write_stream_response server) o) ≡ ok o
    unfolding as_pointer
    response_pointer none = refl
    response_pointer (some r) =
        as_pointer-obj (as_stream_response numbers) _ r (as_stream_response-write_stream_response r)

    as_stream_result-write_stream_result :
        (r : StreamResult) → as_stream_result numbers (write_stream_result server r) ≡ ok r
    unfolding find text_eq to_lower member
    as_stream_result-write_stream_result r =
        let get = known h (stream_result_fields server r) in
        as_stream_result_lem numbers _ r (get (codes "type") refl)
          (ap (as_pointer (as_stream_response numbers)) (get (codes "response") refl)
            ∙ response_pointer r.response)
          (ap (as_pointer (as_hrana_error numbers)) (get (codes "error") refl)
            ∙ error_pointer r.error)

    pub as_pipeline_response-write :
        (p : PipelineResponse)
        → as_pipeline_response numbers (write_pipeline_response server p) ≡ ok p
    unfolding find text_eq to_lower member
    as_pipeline_response-write p =
        let get = known h (pipeline_response_fields server p) in
        as_pipeline_response_lem numbers _ p _ (get (codes "baton") refl)
          (get (codes "base_url") refl) (get (codes "results") refl)
          (each-list_of (write_stream_result server) (as_stream_result numbers)
            (λ r (u : Unit {0}). as_stream_result-write_stream_result r) p.results
            (All-every (λ r. tt) p.results))

    -- A server's answer to a batch is read as the batch's results if no step failed, and otherwise as the
    -- error of the first step that did, for any results whose counts are 32-bit, whose replication indexes
    -- are 64-bit and whose values are those of the protocol, and whatever unknown fields the server adds.
    pub batch_result-write_batch_result :
        (b : BatchResult)
        → IsBatchResult b
        → batch_result numbers
            (record { kind = codes "batch"; result = some (write_batch_result server b) })
          ≡ elim (first_error b.step_errors) [ none ↦ ok b | some m ↦ err (step_error m) ]
    unfolding batch_result unmarshal text_eq
    batch_result-write_batch_result b k = rw (as_batch_result-write_batch_result b k) refl
