-- ===== src/Conn/Faults.antt =====
-- The errors of a connection: what database/sql is told to try again on another connection.
use mathlib.Core.Logic.{◌↔◌}
use libsql_client_go.Base.{
  ℕ, ◌≡◌, refl, ap, ◌∙◌, Bool-cases, true, some, inl, inr, Option-cases, false_ne_true,
}
use libsql_client_go.Base.Texts.{Text, codes, text_eq, text_eq_iff}
use libsql_client_go.Base.Results.{ok, err, Result-cases}
use libsql_client_go.Hrana.Json.{Json, Fields, DecodeError, as_object, as_text, find_or_null}
use libsql_client_go.Hrana.Response.{HranaError, as_hrana_error}
use libsql_client_go.Conn.World.{Env, is_bad_conn}
use libsql_client_go.Conn.Replies.{read_fault, json_fault, server_error, hrana_fault}

module _ (env : Env) where
  -- The body is a JSON object whose `error` is no text, and it can be read as a Hrana error whose code is
  -- STREAM_EXPIRED.
  pub record Expired (body : Text) : Type 0 where
    pub json : Json
    pub fields : Fields
    pub problem : DecodeError
    pub code_error : HranaError
    pub parsed : env.parse_json body ≡ some json
    pub object : as_object json ≡ ok fields
    pub no_text : as_text (find_or_null (codes "error") fields) ≡ err problem
    pub read : as_hrana_error env.numbers json ≡ ok code_error
    pub expired : code_error.code ≡ some (codes "STREAM_EXPIRED")

  hrana_fault-bad :
      (e : HranaError)
      → is_bad_conn (hrana_fault env e) ≡ true
      → e.code ≡ some (codes "STREAM_EXPIRED")
  unfolding hrana_fault
  hrana_fault-bad e bad = elim (Option-cases e.code) [
    | inl n ↦ absurd (false_ne_true (rw (hrana_fault, n) at bad))
    | inr (c, k) ↦ elim (Bool-cases (text_eq c (codes "STREAM_EXPIRED"))) [
      | inl t ↦ k ∙ ap some ((text_eq_iff c (codes "STREAM_EXPIRED")).0 t)
      | inr f ↦ absurd (false_ne_true (rw (hrana_fault, k, f) at bad))
    ]
  ]

  json_fault-bad :
      (status : ℕ) (body : Text) (j : Json)
      → env.parse_json body ≡ some j
      → is_bad_conn (json_fault env status body j) ≡ true
      → Expired body
  unfolding json_fault server_error
  json_fault-bad status body j parsed bad = elim (Result-cases (as_object j)) [
    | inr (x, o) ↦
        let unread : as_hrana_error env.numbers j ≡ err x = unfold as_hrana_error in rw o refl in
        absurd (false_ne_true (rw (json_fault, server_error, o, unread) at bad))
    | inl (f, o) ↦ elim (Result-cases (as_text (find_or_null (codes "error") f))) [
      | inl (m, t) ↦ absurd (false_ne_true (rw (json_fault, server_error, o, t) at bad))
      | inr (x, t) ↦ elim (Result-cases (as_hrana_error env.numbers j)) [
        | inr (y, r) ↦ absurd (false_ne_true (rw (json_fault, server_error, o, t, r) at bad))
        | inl (e, r) ↦ record {
          json = j;
          fields = f;
          problem = x;
          code_error = e;
          parsed = parsed;
          object = o;
          no_text = t;
          read = r;
          expired = hrana_fault-bad e (rw (json_fault, server_error, o, t, r) at bad);
        }
      ]
    ]
  ]

  -- An answer whose status is not 200 is reported as driver.ErrBadConn just when its body is a JSON object
  -- whose `error` is no text and which can be read as a Hrana error with the code STREAM_EXPIRED.
  pub read_fault-Expired :
      (status : ℕ) (body : Text) → (is_bad_conn (read_fault env status body) ≡ true) ↔ Expired body
  unfolding read_fault json_fault server_error hrana_fault text_eq
  read_fault-Expired status body = (there, back)
    where
      there : is_bad_conn (read_fault env status body) ≡ true → Expired body
      there bad = elim (Option-cases (env.parse_json body)) [
        | inl n ↦ absurd (false_ne_true (rw (read_fault, n) at bad))
        | inr (j, e) ↦ json_fault-bad status body j e (rw (read_fault, e) at bad)
      ]

      back : Expired body → is_bad_conn (read_fault env status body) ≡ true
      back h =
          rw
            (
              read_fault, h.parsed, json_fault, server_error, h.object, h.no_text, h.read,
              hrana_fault, h.expired,
            )
            refl
