-- ===== src/Hrana/Response/Objects.antt =====
-- What the decoders make of an object, by its fields.
use libsql_client_go.Base.{ℕ, ◌^◌, ◌≡◌, refl, true, Option, none, some, List, [], ◌∷◌, arith, ltb}
use libsql_client_go.Base.Texts.{Text, codes}
use libsql_client_go.Base.Results.{Result, ok}
use libsql_client_go.Base.Decimal.{
  ℤ, pos, negsuc, format_int, parse_int-format_int, parse_uint-format_nat, parse_uint, parse_below,
  format_nat,
}
use libsql_client_go.Hrana.Value.{Value}
use libsql_client_go.Hrana.Json.{
  Json, Items, Fields, DecodeError, number, str, arr, obj, end, find, find_or_null, as_object,
  as_items, as_text, as_text_pointer, as_int32, each, as_pointer,
}
use libsql_client_go.Hrana.Response.{
  Column, StmtResult, HranaError, BatchResult, StreamResponse, StreamResult, PipelineResponse,
  Numbers, as_payload, as_value, as_column, as_row, as_replication_index, as_stmt_result,
  as_hrana_error, as_batch_result, as_stream_response, as_stream_result, as_pipeline_response,
}
use libsql_client_go.Hrana.Response.Wire.{
  All, text_or_null, index_or_null, list_of, IsInt32, IsIndex, fields,
}

abbrev pub known_names : List Text
known_names =
    codes "type"
    ∷ codes "value"
    ∷ codes "base64"
    ∷ codes "name"
    ∷ codes "decltype"
    ∷ codes "cols"
    ∷ codes "rows"
    ∷ codes "affected_row_count"
    ∷ codes "last_insert_rowid"
    ∷ codes "replication_index"
    ∷ codes "message"
    ∷ codes "code"
    ∷ codes "step_results"
    ∷ codes "step_errors"
    ∷ codes "result"
    ∷ codes "response"
    ∷ codes "error"
    ∷ codes "baton"
    ∷ codes "base_url"
    ∷ codes "results"
    ∷ []

pub All-every {ℓ κ} : {A : Type ℓ} {P : A → Type κ} → ((a : A) → P a) → (xs : List A) → All P xs
All-every h [] = tt
All-every h (x ∷ xs) = (h x, All-every h xs)

pub as_text_pointer-text_or_null : (o : Option Text) → as_text_pointer (text_or_null o) ≡ ok o
unfolding as_text_pointer
as_text_pointer-text_or_null none = refl
as_text_pointer-text_or_null (some s) = refl

-- A list of values that are each read back.
pub each-list_of {ℓ κ} :
    {A : Type ℓ} {P : A → Type κ} (write : A → Json) (decode : Json → Result DecodeError A)
    → ((a : A) → P a → decode (write a) ≡ ok a)
    → (xs : List A) → All P xs
    → each decode (list_of write xs) ≡ ok xs
unfolding each
each-list_of write decode h [] k = refl
each-list_of write decode h (x ∷ xs) k = rw (h x k.0, each-list_of write decode h xs k.1) refl

pub as_pointer-obj {ℓ} :
    {A : Type ℓ} (decode : Json → Result DecodeError A) (f : Fields) (a : A)
    → decode (obj f) ≡ ok a
    → as_pointer decode (obj f) ≡ ok (some a)
unfolding as_pointer
as_pointer-obj decode f a h = rw h refl

pub as_int32-format_int : (i : ℤ) → IsInt32 i → as_int32 (number (format_int i)) ≡ ok i
unfolding as_int32
as_int32-format_int (pos n) h =
    let small : ltb n (2 ^ 31) ≡ true = ground arith in
    rw (as_int32, parse_int-format_int (pos n) (omega arith), small) refl
as_int32-format_int (negsuc n) h =
    let small : ltb n (2 ^ 31) ≡ true = ground arith in
    rw (as_int32, parse_int-format_int (negsuc n) (omega arith), small) refl

-- A name that the fields behind do not have is found as if they were not there.
pub find-fields :
    (k : Text) (known : List (Text × Json)) (rest : Fields)
    → find k rest ≡ none
    → find k (fields known rest) ≡ find k (fields known end)
unfolding find
find-fields k [] rest h = h
find-fields k ((j, v) ∷ known) rest h = rw (find, find-fields k known rest h) refl

module _ (numbers : Numbers) where
  pub as_column_lem :
      (f : Fields) (c : Column)
      → find_or_null (codes "name") f ≡ text_or_null c.name
      → find_or_null (codes "decltype") f ≡ text_or_null c.decltype
      → as_column numbers (obj f) ≡ ok c
  unfolding as_column as_object
  as_column_lem f c n d =
      rw (n, as_text_pointer-text_or_null c.name, d, as_text_pointer-text_or_null c.decltype) refl

  pub as_value_lem :
      (f : Fields) (v : Value)
      → find_or_null (codes "type") f ≡ str v.kind
      → as_payload numbers (find_or_null (codes "value") f) ≡ v.value
      → find_or_null (codes "base64") f ≡ text_or_null v.base64
      → as_value numbers (obj f) ≡ ok v
  unfolding as_value as_object as_text
  as_value_lem f v k p b = rw (k, b, as_text_pointer-text_or_null v.base64, p) refl

  pub as_replication_index-str :
      (s : Text) (n : ℕ)
      → parse_uint s ≡ some n
      → as_replication_index numbers (str s) ≡ ok (some n)
  unfolding as_replication_index
  as_replication_index-str [] n h = unfold parse_uint parse_below in cc
  as_replication_index-str (c ∷ s) n h = rw (as_replication_index, h) refl

  pub as_replication_index-index_or_null :
      (o : Option ℕ) → IsIndex o → as_replication_index numbers (index_or_null o) ≡ ok o
  unfolding as_replication_index
  as_replication_index-index_or_null none h = refl
  as_replication_index-index_or_null (some n) h =
      unfold format_int in as_replication_index-str (format_nat n) n (parse_uint-format_nat n h)

  pub as_stmt_result_lem :
      (f : Fields) (r : StmtResult) (cols rows : Items)
      → find_or_null (codes "cols") f ≡ arr cols
      → each (as_column numbers) cols ≡ ok r.cols
      → find_or_null (codes "rows") f ≡ arr rows
      → each (as_row numbers) rows ≡ ok r.rows
      → find_or_null (codes "affected_row_count") f ≡ number (format_int r.affected_row_count)
      → IsInt32 r.affected_row_count
      → find_or_null (codes "last_insert_rowid") f ≡ text_or_null r.last_insert_row_id
      → find_or_null (codes "replication_index") f ≡ index_or_null r.replication_index
      → IsIndex r.replication_index
      → as_stmt_result numbers (obj f) ≡ ok r
  unfolding as_stmt_result as_object as_items
  as_stmt_result_lem f r cols rows c cs w ws a is l i ii =
      rw
        (
          c,
          cs,
          w,
          ws,
          a,
          as_int32-format_int r.affected_row_count is,
          l,
          as_text_pointer-text_or_null r.last_insert_row_id,
          i,
          as_replication_index-index_or_null r.replication_index ii,
        )
        refl

  pub as_hrana_error_lem :
      (f : Fields) (e : HranaError)
      → find_or_null (codes "message") f ≡ str e.message
      → find_or_null (codes "code") f ≡ text_or_null e.code
      → as_hrana_error numbers (obj f) ≡ ok e
  unfolding as_hrana_error as_object as_text
  as_hrana_error_lem f e m c = rw (m, c, as_text_pointer-text_or_null e.code) refl

  pub as_batch_result_lem :
      (f : Fields) (b : BatchResult) (results errors : Items)
      → find_or_null (codes "step_results") f ≡ arr results
      → each (as_pointer (as_stmt_result numbers)) results ≡ ok b.step_results
      → find_or_null (codes "step_errors") f ≡ arr errors
      → each (as_pointer (as_hrana_error numbers)) errors ≡ ok b.step_errors
      → find_or_null (codes "replication_index") f ≡ index_or_null b.replication_index
      → IsIndex b.replication_index
      → as_batch_result numbers (obj f) ≡ ok b
  unfolding as_batch_result as_object as_items
  as_batch_result_lem f b results errors r rs e es i ii =
      rw (r, rs, e, es, i, as_replication_index-index_or_null b.replication_index ii) refl

  pub as_stream_response_lem :
      (f : Fields) (r : StreamResponse)
      → find_or_null (codes "type") f ≡ str r.kind
      → find (codes "result") f ≡ r.result
      → as_stream_response numbers (obj f) ≡ ok r
  unfolding as_stream_response as_object as_text
  as_stream_response_lem f r k j = rw (k, j) refl

  pub as_stream_result_lem :
      (f : Fields) (r : StreamResult)
      → find_or_null (codes "type") f ≡ str r.kind
      → as_pointer (as_stream_response numbers) (find_or_null (codes "response") f) ≡ ok r.response
      → as_pointer (as_hrana_error numbers) (find_or_null (codes "error") f) ≡ ok r.error
      → as_stream_result numbers (obj f) ≡ ok r
  unfolding as_stream_result as_object as_text
  as_stream_result_lem f r k a e = rw (k, a, e) refl

  pub as_pipeline_response_lem :
      (f : Fields) (p : PipelineResponse) (results : Items)
      → find_or_null (codes "baton") f ≡ str p.baton
      → find_or_null (codes "base_url") f ≡ str p.base_url
      → find_or_null (codes "results") f ≡ arr results
      → each (as_stream_result numbers) results ≡ ok p.results
      → as_pipeline_response numbers (obj f) ≡ ok p
  unfolding as_pipeline_response as_object as_text as_items
  as_pipeline_response_lem f p results b u r rs = rw (b, u, r, rs) refl
