-- ===== src/Conn/Messages.antt =====
-- The messages of `executeStmt`, as a server reads them.
use libsql_client_go.Base.{◌≡◌, Bool, not, none, some, List, [], ◌∷◌, ◌++◌, Option-cases, inl, inr}
use libsql_client_go.Base.Texts.{Text}
use libsql_client_go.Base.Results.{Result, ok, err, Ensures, Ensures-ok}
use libsql_client_go.Values.{NamedValue}
use libsql_client_go.Splitter.{split_statement}
use libsql_client_go.Params.{Params, parse_statement_and_args}
use libsql_client_go.Params.Errors.{ParamError}
use libsql_client_go.Params.Ranges.{AllArgs, Fitting, parse_statement_and_args-Fitting}
use libsql_client_go.Hrana.Batch.Typed.{IsGoValue}
use libsql_client_go.Hrana.Request.{
  StreamRequest, BatchError, execute_stream, batch_stream, bad_value,
}
use libsql_client_go.Hrana.Request.Carries.{
  asked, all_asked, rollback_asked, batch_stream-asked, execute_stream-asked,
}
use libsql_client_go.Hrana.Request.Read.{Sent, AllRead, statements_of}
use libsql_client_go.Conn.World.{Env, Fault, bad_batch, bad_params}
use libsql_client_go.Conn.Execute.{parse, message_of}

module _ (env : Env) where
  open env use {clock, tokens, end_token, get_text}
  open clock use {Time}

  -- One statement is sent alone, and more in a batch, which is a transaction unless the connection is to a
  -- schema database.
  abbrev pub all_sent : Bool → List Text → List (Params Time) → List Sent
  all_sent schema_db (t ∷ []) ps = all_asked clock (t ∷ []) ps
  all_sent schema_db ts ps = all_asked clock ts ps ++ rollback_asked clock (not schema_db)

  -- A request in which a server reads these statements.
  abbrev pub Carries : List Sent → StreamRequest → Type 0
  Carries xs r = AllRead (statements_of r) xs

  pub or_bad_value :
      (P : StreamRequest → Type 0) (r : Result Text StreamRequest)
      → Ensures P r
      → Ensures P (elim r as (λ x. Result Fault StreamRequest) [
        | err e ↦ err (bad_batch (bad_value e))
        | ok a ↦ ok a
      ])
  or_bad_value P (ok a) h = h
  or_bad_value P (err e) h = tt

  pub or_bad_batch :
      (P : StreamRequest → Type 0) (r : Result BatchError StreamRequest)
      → Ensures P r
      → Ensures P
          (elim r as (λ x. Result Fault StreamRequest) [ err e ↦ err (bad_batch e) | ok a ↦ ok a ])
  or_bad_batch P (ok a) h = h
  or_bad_batch P (err e) h = tt

  many :
      (schema_db want_rows : Bool) (stmts : List Text) (ps : List (Params Time))
      → Fitting (IsGoValue clock) stmts ps
      → let r = batch_stream clock stmts ps want_rows (not schema_db) in
        Ensures
          (Carries (all_asked clock stmts ps ++ rollback_asked clock (not schema_db)))
          (elim r as (λ x. Result Fault StreamRequest) [ err e ↦ err (bad_batch e) | ok a ↦ ok a ])
  many schema_db want_rows stmts ps f =
      or_bad_batch (Carries (all_asked clock stmts ps ++ rollback_asked clock (not schema_db)))
        (batch_stream clock stmts ps want_rows (not schema_db))
        (batch_stream-asked clock want_rows (not schema_db) stmts ps f)

  message_of-Ensures :
      (schema_db want_rows : Bool) (stmts : List Text) (ps : List (Params Time))
      → Fitting (IsGoValue clock) stmts ps
      → Ensures
          (Carries (all_sent schema_db stmts ps))
          (message_of env schema_db stmts ps want_rows)
  unfolding message_of
  message_of-Ensures schema_db want_rows [] ps f = many schema_db want_rows [] ps f
  message_of-Ensures schema_db want_rows (t ∷ []) [] f =
      or_bad_value (Carries (asked clock t none ∷ [])) (execute_stream clock t none want_rows)
        (execute_stream-asked clock want_rows t none tt)
  message_of-Ensures schema_db want_rows (t ∷ []) (p ∷ ps) f =
      or_bad_value (Carries (asked clock t (some p) ∷ []))
        (execute_stream clock t (some p) want_rows)
        (execute_stream-asked clock want_rows t (some p) f.1.0)
  message_of-Ensures schema_db want_rows (t ∷ u ∷ ts) ps f =
      many schema_db want_rows (t ∷ u ∷ ts) ps f

  pub message_of-Carries :
      (schema_db want_rows : Bool) (stmts : List Text) (ps : List (Params Time)) (r : StreamRequest)
      → Fitting (IsGoValue clock) stmts ps
      → message_of env schema_db stmts ps want_rows ≡ ok r
      → Carries (all_sent schema_db stmts ps) r
  message_of-Carries schema_db want_rows stmts ps r f e =
      Ensures-ok (Carries (all_sent schema_db stmts ps))
        (message_of env schema_db stmts ps want_rows)
        (message_of-Ensures schema_db want_rows stmts ps f) e

  Fits : List Text × List (Params Time) → Type 0
  Fits (stmts, ps) = Fitting (IsGoValue clock) stmts ps

  parse-Fitting :
      (query : Text) (args : List (NamedValue Time))
      → AllArgs (IsGoValue clock) args
      → Ensures Fits (parse env query args)
  unfolding parse Fits
  parse-Fitting query args h =
      elim (Option-cases (split_statement (get_text query) (tokens query) (end_token query))) [
        | inl w ↦ rw (parse, w) tt
        | inr ((stmts, info), w) ↦
            rw (parse, w)
              (fitting stmts (parse_statement_and_args tokens stmts args)
                (parse_statement_and_args-Fitting (IsGoValue clock) tokens stmts args h))
      ]
    where
      fitting :
          (stmts : List Text) (r : Result ParamError (List (Params Time)))
          → Ensures (Fitting (IsGoValue clock) stmts) r
          → Ensures Fits (elim r as (λ x. Result Fault (List Text × List (Params Time))) [
            | err e ↦ err (bad_params e)
            | ok ps ↦ ok (stmts, ps)
          ])
      fitting stmts (ok ps) k = k
      fitting stmts (err e) k = tt

  -- The arguments of a call are values that Go can have, and it gets as far as a message. Then every value of
  -- the message has a type and a payload of the protocol, and a server that reads it finds the statements of the
  -- text in order, each with the values of its own parameters: a 64-bit integer, a float, a text, a blob or null
  -- as it was, a Boolean as 0 or 1 and a time as its text. Behind them comes nothing but the ROLLBACK of a batch
  -- that is a transaction.
  pub parsed_message-Carries :
      (query : Text) (args : List (NamedValue Time)) (schema_db want_rows : Bool)
      (stmts : List Text) (ps : List (Params Time)) (r : StreamRequest)
      → AllArgs (IsGoValue clock) args
      → parse env query args ≡ ok (stmts, ps)
      → message_of env schema_db stmts ps want_rows ≡ ok r
      → Carries (all_sent schema_db stmts ps) r
  unfolding Fits
  parsed_message-Carries query args schema_db want_rows stmts ps r h e m =
      message_of-Carries schema_db want_rows stmts ps r
        (Ensures-ok Fits (parse env query args) (parse-Fitting query args h) e) m
