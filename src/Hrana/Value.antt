-- ===== src/Hrana/Value.antt =====
-- libsql/internal/hrana/value.go. `type` and `value` of a Value are `kind` and `value` here.
pub mod RoundTrip
mod Tests
use libsql_client_go.Base.{
  ℕ, Bool, true, false, ◌&&◌, ◌||◌, Option, none, some, List, [], ◌∷◌, if◌then◌else◌,
}
use libsql_client_go.Base.Texts.{Text, codes, text_eq, to_lower}
use libsql_client_go.Base.Results.{Result, ok, err}
use libsql_client_go.Base.Decimal.{ℤ, pos, format_int, parse_int}
use libsql_client_go.Base.Base64.{encode, decode}
use libsql_client_go.Values.{
  GoValue, nil, int64, int, string, bytes, float64, time, bool, unsupported,
}

-- What the field `Value any` holds: strings and floats where the code stores them, and whatever
-- else a server's JSON may put there.
pub data Payload : Type 0 where
  absent : Payload
  str : Text → Payload
  float : ℕ → Payload
  other : Text → Payload

pub record Value : Type 0 where
  pub kind : Text
  pub value : Payload
  pub base64 : Option Text

-- time.Time.Format and time.ParseInLocation in UTC, by the layout.
pub record Clock : Type 1 where
  pub Time : Type 0
  pub format : Text → Time → Text
  pub parse : Text → Text → Option Time

abbrev pub write_layout : Text
write_layout = codes "2006-01-02 15:04:05.999999999-07:00"

-- The layouts that are tried, in order.
abbrev pub read_layouts : List Text
read_layouts =
    codes "2006-01-02 15:04:05.999999999-07:00"
    ∷ codes "2006-01-02T15:04:05.999999999-07:00"
    ∷ codes "2006-01-02 15:04:05.999999999"
    ∷ codes "2006-01-02T15:04:05.999999999"
    ∷ codes "2006-01-02 15:04:05"
    ∷ codes "2006-01-02T15:04:05"
    ∷ codes "2006-01-02 15:04"
    ∷ codes "2006-01-02T15:04"
    ∷ codes "2006-01-02"
    ∷ []

abbrev pub plain : Text → Payload → Value
plain kind value = record { kind = kind; value = value; base64 = none }

module _ (clock : Clock) where
  open clock use {Time, format, parse}

  -- `ToValue(v any)`. The error carries the value's text.
  unfoldable pub to_value : GoValue Time → Result Text Value
  to_value nil = ok (plain (codes "null") absent)
  to_value (int64 i) = ok (plain (codes "integer") (str (format_int i)))
  to_value (int i) = ok (plain (codes "integer") (str (format_int i)))
  to_value (string s) = ok (plain (codes "text") (str s))
  to_value (bytes b) = ok (record { kind = codes "blob"; value = absent; base64 = some (encode b) })
  to_value (float64 x) = ok (plain (codes "float") (float x))
  to_value (time t) = ok (plain (codes "text") (str (format write_layout t)))
  to_value (bool b) = ok (plain (codes "integer") (str (if b then codes "1" else codes "0")))
  to_value (unsupported s) = err s

  -- A failed type assertion panics.
  pub data Read : Type 0 where
    value : GoValue Time → Read
    panic : Read

  -- The loop over the layouts.
  parse_time : List Text → Text → Option Time
  parse_time [] s = none
  parse_time (layout ∷ rest) s = elim (parse layout s) [
    | some t ↦ some t
    | none ↦ parse_time rest s
  ]

  read_payload : Payload → GoValue Time
  read_payload absent = nil
  read_payload (str s) = string s
  read_payload (float x) = float64 x
  read_payload (other s) = unsupported s

  read_blob : Option Text → GoValue Time
  read_blob none = nil
  read_blob (some s) = elim (decode s) [ none ↦ nil | some b ↦ bytes b ]

  read_integer : Payload → Read
  read_integer (str s) = elim (parse_int s) [ none ↦ value nil | some i ↦ value (int64 i) ]
  read_integer _ = panic

  -- A text column whose declared type is a time.
  read_time : Payload → Read
  unfolding parse_time
  read_time (str s) = elim (parse_time read_layouts s) [
    | none ↦ value (string s)
    | some t ↦ value (time t)
  ]
  read_time _ = panic

  abbrev pub is_time : Option Text → Bool
  is_time none = false
  is_time (some t) =
      text_eq (to_lower t) (codes "timestamp") || text_eq (to_lower t) (codes "datetime")

  -- The method `ToValue(columnType)`.
  unfoldable pub from_value : Option Text → Value → Read
  unfolding read_blob read_integer read_time read_payload
  from_value column v =
      if text_eq v.kind (codes "blob")
      then value (read_blob v.base64)
      else if text_eq v.kind (codes "integer")
      then read_integer v.value
      else if is_time column && text_eq v.kind (codes "text")
      then read_time v.value
      else value (read_payload v.value)
