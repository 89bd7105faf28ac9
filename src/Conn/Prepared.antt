-- ===== src/Conn/Prepared.antt =====
-- A prepared statement that is run with as many values as `NumInput` says.
use libsql_client_go.Base.{
  ℕ, ◌≡◌, refl, ap, inl, inr, Bool, false, Option, none, some, List, [], ◌∷◌, map, ◌==◌, length,
  Option-cases, arith,
}
use libsql_client_go.Base.Texts.{Text}
use libsql_client_go.Base.Results.{Result, ok, err, Result-cases, err-ne-ok}
use libsql_client_go.Values.{GoValue}
use libsql_client_go.Splitter.{split_statement, SplitStatementExtraInfo}
use libsql_client_go.Params.{Params}
use libsql_client_go.Params.Ranges.{AllValues}
use libsql_client_go.Params.Share.{query}
use libsql_client_go.Params.Extract.{ParamsInfo, extract_parameters, parse_statement}
use libsql_client_go.Hrana.Request.{StreamRequest, stmt_of, execute_request, execute_stream}
use libsql_client_go.Hrana.Batch.Typed.{IsGoValue, sql_of}
use libsql_client_go.Hrana.Batch.Sendable.{AllSendable, AllSendable-AllValues, add_args-ok}
use libsql_client_go.Hrana.Request.Read.{Sent}
use libsql_client_go.Conn.World.{Env, Fault}
use libsql_client_go.Conn.Execute.{parse, message_of}
use libsql_client_go.Conn.Driver.{PreparedStmt, prepare_context, convert_to_named, prepared}
use libsql_client_go.Conn.Messages.{Carries, message_of-Carries}
use libsql_client_go.Conn.Ordinals.{own_parameters, parse_statement_and_args-own}

module _ (env : Env) where
  open env use {clock, tokens, end_token, get_text}
  open clock use {Time}

  -- What a successful `PrepareContext` has found.
  record Found (q : Text) (n : ℕ) (s : PreparedStmt env) : Type 0 where
    pub stmt : Text
    pub extra : SplitStatementExtraInfo
    pub info : ParamsInfo
    pub one : split_statement (get_text q) (tokens q) (end_token q) ≡ some (stmt ∷ [], extra)
    pub extracted : extract_parameters (tokens stmt) ≡ ok info
    pub count : info.positional_parameters_count ≡ n
    pub same : s.sql ≡ q

  inputs : Result Fault (PreparedStmt env) → Option ℕ
  inputs (ok s) = s.num_input
  inputs (err e) = none

  texts : Result Fault (PreparedStmt env) → Text
  texts (ok s) = s.sql
  texts (err e) = []

  prepared-count :
      (q : Text) (info : ParamsInfo) (infos : List ParamsInfo) (s : PreparedStmt env) (n : ℕ)
      → prepared env q (info ∷ infos) ≡ ok s
      → s.num_input ≡ some n
      → (info.positional_parameters_count ≡ n) × (s.sql ≡ q)
  unfolding inputs texts
  prepared-count q info infos s n e k = by_names info.named_parameters e
    where
      by_names :
          (names : List Text)
          → Path
              (Result Fault (PreparedStmt env))
              (elim names [
                | [] ↦ ok (record { num_input = some info.positional_parameters_count; sql = q })
                | m ∷ ms ↦ ok (record { num_input = none; sql = q })
              ])
              (ok s)
          → (info.positional_parameters_count ≡ n) × (s.sql ≡ q)
      by_names [] h = let input = ap inputs h in let text = ap texts h in (cc (input, k), cc (text))
      by_names (m ∷ ms) h = let input = ap inputs h in absurd (cc (input, k))

  found_one :
      (q : Text) (stmts : List Text) (extra : SplitStatementExtraInfo) (s : PreparedStmt env)
      (n : ℕ)
      → split_statement (get_text q) (tokens q) (end_token q) ≡ some (stmts, extra)
      → prepare_context env q ≡ ok s
      → s.num_input ≡ some n
      → Found q n s
  unfolding prepare_context
  found_one q [] extra s n w e k = absurd (err-ne-ok (rw (prepare_context, w) at e))
  found_one q (t ∷ u ∷ ts) extra s n w e k =
      let several : (length (t ∷ u ∷ ts) == 1) ≡ false = ground arith in
      elim (Result-cases (parse_statement tokens (t ∷ u ∷ ts))) [
        | inl (infos, p) ↦ absurd (err-ne-ok (rw (prepare_context, w, p, several) at e))
        | inr (x, p) ↦ absurd (err-ne-ok (rw (prepare_context, w, p) at e))
      ]
  found_one q (t ∷ []) extra s n w e k = elim (Result-cases (extract_parameters (tokens t))) [
    | inr (x, p) ↦ absurd (err-ne-ok (rw (prepare_context, w, parse_statement, p) at e))
    | inl (info, p) ↦
        let (count, same) =
          prepared-count q info [] s n (rw (prepare_context, w, parse_statement, p) at e) k in
        record {
          stmt = t;
          extra = extra;
          info = info;
          one = w;
          extracted = p;
          count = count;
          same = same;
        }
  ]

  prepare_context-Found :
      (q : Text) (s : PreparedStmt env) (n : ℕ)
      → prepare_context env q ≡ ok s
      → s.num_input ≡ some n
      → Found q n s
  unfolding prepare_context
  prepare_context-Found q s n e k =
      elim (Option-cases (split_statement (get_text q) (tokens q) (end_token q))) [
        | inl w ↦ absurd (err-ne-ok (rw (prepare_context, w) at e))
        | inr ((stmts, extra), w) ↦ found_one q stmts extra s n w e k
      ]

  parse-own :
      (q : Text) (s : PreparedStmt env) (vs : List (GoValue Time)) (found : Found q (length vs) s)
      → parse env s.sql (convert_to_named env vs) ≡ ok (found.stmt ∷ [], own_parameters env vs)
  unfolding parse
  parse-own q s vs found =
      rw
        (
          found.same,
          parse,
          found.one,
          parse_statement_and_args-own env found.stmt vs found.info found.extracted found.count,
        )
        refl

  -- The single statement with the values as they are.
  abbrev pub sent_with : Text → List (GoValue Time) → List Sent
  sent_with t vs = record { sql = some t; positional = map (sql_of clock) vs; named = [] } ∷ []

  message_of-own :
      (t : Text) (vs : List (GoValue Time)) (schema_db want_rows : Bool)
      → AllSendable clock vs
      → (r : StreamRequest) × (message_of env schema_db (t ∷ []) (own_parameters env vs) want_rows
          ≡ ok r)
  unfolding message_of execute_stream
  message_of-own t [] schema_db want_rows h = (_, refl)
  message_of-own t (v ∷ vs) schema_db want_rows h =
      let (s, e) = add_args-ok clock (v ∷ vs) (stmt_of t want_rows) h in
      let r = execute_request s in (r, rw (message_of, execute_stream, e) refl)

  own_message :
      (t : Text) (vs : List (GoValue Time)) (schema_db want_rows : Bool) (r : StreamRequest)
      → AllValues (IsGoValue clock) vs
      → message_of env schema_db (t ∷ []) (own_parameters env vs) want_rows ≡ ok r
      → Carries env (sent_with t vs) r
  own_message t [] schema_db want_rows r g e =
      message_of-Carries env schema_db want_rows (t ∷ []) [] r tt e
  own_message t (v ∷ vs) schema_db want_rows r g e =
      message_of-Carries env schema_db want_rows (t ∷ []) (query (v ∷ vs) ∷ []) r
        (refl, ((g, tt), tt)) e

  -- When PrepareContext succeeds with a NumInput of n, its text is a single statement, and running it with n
  -- values that can be sent does not fail before the request: ExecContext and QueryContext parse the text into
  -- that statement and build a message in which a server reads just that statement, with all the values as
  -- positional arguments in their order.
  pub prepared_message :
      (q : Text) (s : PreparedStmt env) (vs : List (GoValue Time)) (schema_db want_rows : Bool)
      → prepare_context env q ≡ ok s
      → s.num_input ≡ some (length vs)
      → AllSendable clock vs
      → (t : Text) × (ps : List (Params Time)) × (r : StreamRequest) × (parse env s.sql
            (convert_to_named env vs)
          ≡ ok (t ∷ [], ps))
        × (message_of env schema_db (t ∷ []) ps want_rows ≡ ok r)
        × Carries env (sent_with t vs) r
  prepared_message q s vs schema_db want_rows e k h =
      let found = prepare_context-Found q s (length vs) e k in
      let (r, m) = message_of-own found.stmt vs schema_db want_rows h in
      let read =
        own_message found.stmt vs schema_db want_rows r (AllSendable-AllValues clock vs h) m in
      (found.stmt, own_parameters env vs, r, parse-own q s vs found, m, read)
