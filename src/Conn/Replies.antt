-- ===== src/Conn/Replies.antt =====
-- What a response says: the function `sendPipelineRequest` from the reply on, and `getReplicationIndex`.
use libsql_client_go.Base.{
  ℕ, Bool, true, false, ◌||◌, Option, none, some, List, [], ◌∷◌, ltb, ◌==◌, if◌then◌else◌,
}
use libsql_client_go.Base.Texts.{Text, codes, text_eq}
use libsql_client_go.Base.Results.{Result, ok, err}
use libsql_client_go.Hrana.Json.{Json, DecodeError, as_object, as_text, find_or_null}
use libsql_client_go.Hrana.Response.{
  PipelineResponse, StreamResult, StreamResponse, HranaError, as_pipeline_response, as_hrana_error,
  ResultError, result_panic, execute_result, batch_result,
}
use libsql_client_go.Conn.World.{
  Env, Fault, transport, status_error, coded_error, expired_stream, server_message, bad_body, Reply,
  failed, answered,
}

-- What `sendPipelineRequest` returns: a response, or an error with the flag `streamClosed`.
pub data Sending : Type 0 where
  got : PipelineResponse → Sending
  refused : Bool → Fault → Sending

abbrev pub larger : ℕ → Option ℕ → ℕ
larger m none = m
larger m (some n) = if ltb m n then n else m

module _ (env : Env) where
  -- The index that one result reports.
  unfoldable pub response_index : StreamResponse → Option ℕ
  response_index r =
      if text_eq r.kind (codes "execute")
      then elim (execute_result env.numbers r) [ ok s ↦ s.replication_index | err e ↦ none ]
      else if text_eq r.kind (codes "batch")
      then elim (batch_result env.numbers r) [ ok b ↦ b.replication_index | err e ↦ none ]
      else none

  abbrev pub index_of : StreamResult → Option ℕ
  index_of r = elim r.response [ none ↦ none | some s ↦ response_index s ]

  -- `getReplicationIndex`: the largest of the indexes that the results report.
  unfoldable pub index_loop : ℕ → List StreamResult → ℕ
  index_loop m [] = m
  index_loop m (r ∷ rs) = index_loop (larger m (index_of r)) rs

  unfoldable pub get_replication_index : PipelineResponse → ℕ
  unfolding index_loop
  get_replication_index p = index_loop 0 p.results

  -- Whether decoding a result panics, as it does on a JSON null.
  abbrev pub decode_panics {ℓ} : {A : Type ℓ} → Result ResultError A → Bool
  decode_panics (err result_panic) = true
  decode_panics _ = false

  unfoldable pub response_panics : StreamResponse → Bool
  response_panics r =
      if text_eq r.kind (codes "execute")
      then decode_panics (execute_result env.numbers r)
      else if text_eq r.kind (codes "batch")
      then decode_panics (batch_result env.numbers r)
      else false

  -- The same for `getReplicationIndex`, which decodes them all.
  unfoldable pub index_panics : List StreamResult → Bool
  unfolding response_panics
  index_panics [] = false
  index_panics (r ∷ rs) =
      elim r.response [ none ↦ false | some s ↦ response_panics s ] || index_panics rs

  -- An answer whose status is not 200: the body is read as {"error": …}, then as a Hrana error.
  unfoldable pub hrana_fault : HranaError → Fault
  hrana_fault e = elim e.code [
    | none ↦ server_message e.message
    | some c ↦
        if text_eq c (codes "STREAM_EXPIRED")
        then expired_stream c e.message
        else coded_error c e.message
  ]

  unfoldable pub server_error : Json → Result DecodeError Text
  server_error j = elim (as_object j) [
    | err e ↦ err e
    | ok f ↦ as_text (find_or_null (codes "error") f)
  ]

  unfoldable pub json_fault : ℕ → Text → Json → Fault
  unfolding hrana_fault server_error
  json_fault status body j = elim (server_error j) [
    | ok message ↦ status_error status message
    | err x ↦ elim (as_hrana_error env.numbers j) [
      | ok e ↦ hrana_fault e
      | err y ↦ status_error status body
    ]
  ]

  unfoldable pub read_fault : ℕ → Text → Fault
  unfolding json_fault
  read_fault status body = elim (env.parse_json body) [
    | none ↦ status_error status body
    | some j ↦ json_fault status body j
  ]

  unfoldable pub read_response : Text → Sending
  read_response body = elim (env.parse_json body) [
    | none ↦ refused false bad_body
    | some j ↦ elim (as_pipeline_response env.numbers j) [
      | ok p ↦ got p
      | err e ↦ refused false bad_body
    ]
  ]

  unfoldable pub read_reply : Reply → Sending
  unfolding read_response read_fault
  read_reply (failed e) = refused false (transport e)
  read_reply (answered status body) =
      if status == 200 then read_response body else refused true (read_fault status body)
