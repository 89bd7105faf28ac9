-- ===== src/Ws/RoundTrip.antt =====
-- Values over the WebSocket come back as they were sent.
use libsql_client_go.Base.{◌≡◌, refl, true, false, if◌then◌else◌}
use libsql_client_go.Base.Texts.{text_eq}
use libsql_client_go.Base.Results.{Result, ok, err}
use libsql_client_go.Base.Decimal.{IsInt64, pos, parse_int, parse_below, parse_int-format_int}
use libsql_client_go.Base.Base64.{AllBytes, decode-encode}
use libsql_client_go.Values.{
  GoValue, nil, int64, int, string, bytes, float64, time, bool, unsupported,
}
use libsql_client_go.Hrana.Value.{Value}
use libsql_client_go.Ws.{ReadError, Unsupported, convert_value, read_value, integer_of, blob_of}

module _ {Time : Type 0} where
  -- A Boolean comes back as 0 or 1.
  abbrev pub as_stored : GoValue Time → GoValue Time
  as_stored (bool b) = int64 (if b then pos 1 else pos 0)
  as_stored v = v

  -- The values that `convertValue` supports, within the ranges of their Go types.
  abbrev pub IsConvertible : GoValue Time → Type 0
  IsConvertible (int64 i) = IsInt64 i
  IsConvertible (bytes b) = AllBytes b
  IsConvertible (int i) = ⊥
  IsConvertible (time t) = ⊥
  IsConvertible (unsupported s) = ⊥
  IsConvertible _ = Unit {0}

  abbrev pub echoed :
      Result Unsupported Value → Result Unsupported (Result ReadError (GoValue Time))
  echoed (err e) = err e
  echoed (ok v) = ok (read_value v)

  -- Every supported value is converted, and a server that sends back what it stored gives the value
  -- itself, a Boolean as 0 or 1.
  pub read_value-convert_value :
      (v : GoValue Time) → IsConvertible v → echoed (convert_value v) ≡ ok (ok (as_stored v))
  unfolding convert_value read_value text_eq
  read_value-convert_value nil h = refl
  read_value-convert_value (int64 i) h = rw (parse_int-format_int i h, integer_of)
  read_value-convert_value (int i) h = absurd h
  read_value-convert_value (string s) h = refl
  read_value-convert_value (bytes b) h = rw (decode-encode b h, blob_of)
  read_value-convert_value (float64 x) h = refl
  read_value-convert_value (time t) h = absurd h
  read_value-convert_value (bool true) h = unfold parse_int parse_below in refl
  read_value-convert_value (bool false) h = unfold parse_int parse_below in refl
  read_value-convert_value (unsupported s) h = absurd h
