-- ===== src/Hrana/Batch/Sendable.antt =====
-- Arguments that can be sent: adding them to a statement does not fail.
use libsql_client_go.Base.{◌≡◌, refl, none, some, List, [], ◌∷◌}
use libsql_client_go.Base.Results.{ok}
use libsql_client_go.Values.{
  GoValue, nil, int64, int, string, bytes, float64, time, bool, unsupported,
}
use libsql_client_go.Hrana.Value.RoundTrip.{IsSendable}
use libsql_client_go.Hrana.Value.{Clock, Value, to_value}
use libsql_client_go.Hrana.Batch.{Stmt, add_args, add_positional_args, convert_all}
use libsql_client_go.Hrana.Batch.Typed.{IsGoValue}
use libsql_client_go.Params.Ranges.{AllValues}

module _ (clock : Clock) where
  open clock use {Time, format}

  -- The values that the client sends.
  abbrev pub AllSendable : List (GoValue Time) → Type 0
  AllSendable [] = Unit {0}
  AllSendable (v ∷ vs) = IsSendable clock v × AllSendable vs

  IsSendable-IsGoValue : (g : GoValue Time) → IsSendable clock g → IsGoValue clock g
  IsSendable-IsGoValue nil h = tt
  IsSendable-IsGoValue (int64 i) h = h
  IsSendable-IsGoValue (int i) h = h
  IsSendable-IsGoValue (string s) h = tt
  IsSendable-IsGoValue (bytes b) h = h
  IsSendable-IsGoValue (float64 x) h = tt
  IsSendable-IsGoValue (time t) h = tt
  IsSendable-IsGoValue (bool b) h = tt
  IsSendable-IsGoValue (unsupported s) h = tt

  pub AllSendable-AllValues :
      (gs : List (GoValue Time)) → AllSendable gs → AllValues (IsGoValue clock) gs
  AllSendable-AllValues [] h = tt
  AllSendable-AllValues (g ∷ gs) h = (IsSendable-IsGoValue g h.0, AllSendable-AllValues gs h.1)

  to_value-ok : (g : GoValue Time) → IsSendable clock g → (v : Value) × (to_value clock g ≡ ok v)
  unfolding to_value
  to_value-ok nil h = (_, refl)
  to_value-ok (int64 i) h = (_, refl)
  to_value-ok (int i) h = (_, refl)
  to_value-ok (string s) h = (_, refl)
  to_value-ok (bytes b) h = (_, refl)
  to_value-ok (float64 x) h = (_, refl)
  to_value-ok (time t) h = (_, refl)
  to_value-ok (bool b) h = (_, refl)
  to_value-ok (unsupported s) h = absurd h

  convert_all-ok :
      (gs : List (GoValue Time))
      → AllSendable gs
      → (vs : List Value) × (convert_all clock gs ≡ ok vs)
  unfolding convert_all
  convert_all-ok [] h = ([], refl)
  convert_all-ok (g ∷ gs) h =
      let (v, e) = to_value-ok g h.0 in
      let (vs, es) = convert_all-ok gs h.1 in (v ∷ vs, rw (convert_all, e, es) refl)

  pub add_args-ok :
      (gs : List (GoValue Time)) (s : Stmt)
      → AllSendable gs
      → (t : Stmt) × (add_args clock (record { positional = some gs; named = none }) s ≡ ok t)
  unfolding add_args add_positional_args
  add_args-ok gs s h =
      let (vs, e) = convert_all-ok gs h in
      (record s { args = vs }, rw (add_positional_args, e) refl)
