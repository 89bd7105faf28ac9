-- ===== src/Hrana/Value/RoundTrip.antt =====
-- A value that is sent and comes back.
use libsql_client_go.Base.{◌≡◌, refl, true, false, Option, if◌then◌else◌}
use libsql_client_go.Base.Texts.{Text, text_eq}
use libsql_client_go.Base.Results.{Result, ok, err}
use libsql_client_go.Base.Decimal.{pos, IsInt64, parse_int, parse_below, parse_int-format_int}
use libsql_client_go.Base.Base64.{AllBytes, decode-encode}
use libsql_client_go.Values.{
  GoValue, nil, int64, int, string, bytes, float64, time, bool, unsupported,
}
use libsql_client_go.Hrana.Value.{
  Clock, Value, Read, value, to_value, from_value, read_integer, read_blob, write_layout, is_time,
}

module _ (clock : Clock) where
  open clock use {Time, format}

  -- What the program reads back of a value that it sent: ints become int64, Booleans become 0 or
  -- 1, and times become texts.
  abbrev pub read_back : GoValue Time → GoValue Time
  read_back (int i) = int64 i
  read_back (bool b) = int64 (if b then pos 1 else pos 0)
  read_back (time t) = string (format write_layout t)
  read_back v = v

  -- The values that Go can have: 64-bit integers, and bytes below 256; and that the client sends.
  abbrev pub IsSendable : GoValue Time → Type 0
  IsSendable (int64 i) = IsInt64 i
  IsSendable (int i) = IsInt64 i
  IsSendable (bytes b) = AllBytes b
  IsSendable (unsupported s) = ⊥
  IsSendable v = Unit {0}

  -- What the other end stores and sends back unchanged.
  abbrev pub returned : Option Text → Result Text Value → Result Text (Read clock)
  returned column (err e) = err e
  returned column (ok v) = ok (from_value clock column v)

  -- What a value that the client can send is read back as, from a column that declares no time: nil, an
  -- int64, a text, a blob and a float as they were, an int as the same int64, a Boolean as 0 or 1, and a time
  -- as its text.
  pub from_value-to_value :
      (column : Option Text) (v : GoValue Time)
      → is_time clock column ≡ false
      → IsSendable v
      → returned column (to_value clock v) ≡ ok (value (read_back v))
  unfolding to_value from_value text_eq
  from_value-to_value column nil h s = rw h
  from_value-to_value column (int64 i) h s = rw (parse_int-format_int i s, read_integer)
  from_value-to_value column (int i) h s = rw (parse_int-format_int i s, read_integer)
  from_value-to_value column (string s) h k = rw h
  from_value-to_value column (bytes b) h s = rw (decode-encode b s, read_blob)
  from_value-to_value column (float64 x) h s = rw h
  from_value-to_value column (time t) h s = rw h
  from_value-to_value column (bool true) h s = unfold parse_int parse_below in refl
  from_value-to_value column (bool false) h s = unfold parse_int parse_below in refl
  from_value-to_value column (unsupported s) h k = absurd k
