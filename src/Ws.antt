-- ===== src/Ws.antt =====
-- The values of libsql/internal/ws/websockets.go. The map of a value has the keys `type`, `value`
-- and `base64`, the fields of a `Value` here.
pub mod Dynamic
pub mod Socket
pub mod Exec
pub mod Connect
pub mod Response
pub mod Driver
pub mod Pool
pub mod Handshake
pub mod Calls
pub mod Numbers
pub mod Reading
pub mod Args
pub mod RoundTrip
mod Tests
use libsql_client_go.Base.{Bool, true, false, Option, none, some, if◌then◌else◌}
use libsql_client_go.Base.Texts.{Text, codes, text_eq}
use libsql_client_go.Base.Results.{Result, ok, err}
use libsql_client_go.Base.Decimal.{format_int, parse_int}
use libsql_client_go.Base.Base64.{encode, decode}
use libsql_client_go.Values.{
  GoValue, nil, int64, int, string, bytes, float64, time, bool, unsupported,
}
use libsql_client_go.Hrana.Value.{Value, Payload, absent, str, float, other, plain}

-- The value's kind that is not supported: an `int`, a time, or any other.
pub data Unsupported : Type 0 where
  an_int a_time : Unsupported
  another : Text → Unsupported

-- `convertValue`
unfoldable pub convert_value : {Time : Type 0} → GoValue Time → Result Unsupported Value
convert_value nil = ok (plain (codes "null") absent)
convert_value (int64 i) = ok (plain (codes "integer") (str (format_int i)))
convert_value (string s) = ok (plain (codes "text") (str s))
convert_value (bytes b) =
    ok (record { kind = codes "blob"; value = absent; base64 = some (encode b) })
convert_value (float64 x) = ok (plain (codes "float") (float x))
convert_value (bool b) = ok (plain (codes "integer") (str (if b then codes "1" else codes "0")))
convert_value (int i) = err an_int
convert_value (time t) = err a_time
convert_value (unsupported s) = err (another s)

-- An integer or a blob that does not parse, a type that is not known, and the panic of a type
-- assertion.
pub data ReadError : Type 0 where
  bad_integer bad_blob : ReadError
  unrecognized : Text → ReadError
  assertion_panic : ReadError

module _ {Time : Type 0} where
  integer_of : Payload → Result ReadError (GoValue Time)
  integer_of (str s) = elim (parse_int s) [ none ↦ err bad_integer | some i ↦ ok (int64 i) ]
  integer_of _ = err assertion_panic

  text_of : Payload → Result ReadError (GoValue Time)
  text_of (str s) = ok (string s)
  text_of _ = err assertion_panic

  blob_of : Option Text → Result ReadError (GoValue Time)
  blob_of none = err assertion_panic
  blob_of (some s) = elim (decode s) [ none ↦ err bad_blob | some b ↦ ok (bytes b) ]

  float_of : Payload → Result ReadError (GoValue Time)
  float_of (float x) = ok (float64 x)
  float_of _ = err assertion_panic

  -- `execResponse.value`, on the value at a row and a column.
  unfoldable pub read_value : Value → Result ReadError (GoValue Time)
  unfolding integer_of text_of blob_of float_of
  read_value v =
      if text_eq v.kind (codes "null")
      then ok nil
      else if text_eq v.kind (codes "integer")
      then integer_of v.value
      else if text_eq v.kind (codes "text")
      then text_of v.value
      else if text_eq v.kind (codes "blob")
      then blob_of v.base64
      else if text_eq v.kind (codes "float")
      then float_of v.value
      else err (unrecognized v.kind)
