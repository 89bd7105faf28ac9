-- ===== src/Values.antt =====
-- The Go values that database/sql hands to a driver and takes from one. A float64 is its bit
-- pattern: no code here computes with one.
use libsql_client_go.Base.{ℕ, Bool, List}
use libsql_client_go.Base.Texts.{Text}
use libsql_client_go.Base.Decimal.{ℤ}

-- `unsupported` is a value of any other type. `Time` is time.Time.
pub data GoValue (Time : Type 0) : Type 0 where
  nil : GoValue Time
  int64 : ℤ → GoValue Time
  int : ℤ → GoValue Time
  string : Text → GoValue Time
  bytes : List ℕ → GoValue Time
  float64 : ℕ → GoValue Time
  time : Time → GoValue Time
  bool : Bool → GoValue Time
  unsupported : Text → GoValue Time

-- driver.NamedValue
pub record NamedValue (Time : Type 0) : Type 0 where
  pub name : Text
  pub ordinal : ℕ
  pub value : GoValue Time
