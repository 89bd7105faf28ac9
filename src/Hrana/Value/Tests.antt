-- ===== src/Hrana/Value/Tests.antt =====
-- Values on concrete inputs, with a clock whose times are their texts.
use libsql_client_go.Base.{false, ◌≡◌, refl, some, arith}
use libsql_client_go.Base.Texts.{Text, codes, text_eq, to_lower}
use libsql_client_go.Base.Results.{ok}
use libsql_client_go.Base.Decimal.{negsuc}
use libsql_client_go.Values.{int64, time}
use libsql_client_go.Hrana.Value.{Clock, value, to_value, from_value, str, plain, is_time}
use libsql_client_go.Hrana.Value.RoundTrip.{returned, from_value-to_value}

abbrev toy_clock : Clock
toy_clock = record { Time = Text; format = λ layout t. t; parse = λ layout s. some s }

text_column : is_time toy_clock (some (codes "TEXT")) ≡ false
unfolding text_eq to_lower
text_column = refl

from_value-to_value_example :
    returned toy_clock (some (codes "TEXT")) (to_value toy_clock (int64 (negsuc 41)))
    ≡ ok (value (int64 (negsuc 41)))
from_value-to_value_example =
    from_value-to_value toy_clock (some (codes "TEXT")) (int64 (negsuc 41)) text_column
      (omega arith)

-- A text of a timestamp column becomes a time.
read_timestamp :
    from_value toy_clock (some (codes "DateTime")) (plain (codes "text") (str (codes "2024-01-01")))
    ≡ value (time (codes "2024-01-01"))
unfolding from_value text_eq to_lower
read_timestamp = refl
