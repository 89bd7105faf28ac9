-- ===== src/Ws/Dynamic.antt =====
-- The values that encoding/json stores into an `interface{}`, and the type assertions that
-- libsql/internal/ws/websockets.go makes on them. A number is a float64, here its bits.
use libsql_client_go.Base.{ℕ, zero, suc, Bool, false, Option, none, some, if◌then◌else◌}
use libsql_client_go.Base.Texts.{Text, codes, text_eq}
use libsql_client_go.Base.Results.{Result, ok, err, ◌>>=◌}

mutual
  pub data Dynamic : Type 0 where
    nil : Dynamic
    boolean : Bool → Dynamic
    number : ℕ → Dynamic
    str : Text → Dynamic
    arr : Elements → Dynamic
    obj : Members → Dynamic

  pub data Elements : Type 0 where
    no_element : Elements
    element : Dynamic → Elements → Elements

  pub data Members : Type 0 where
    no_member : Members
    member : Text → Dynamic → Members → Members

-- An assertion that fails panics.
pub data Panic : Type 0 where
  assertion_panic index_panic : Panic

-- `m[k]`: the last member of the name, in its exact spelling, and nil where there is none.
unfoldable pub find : Text → Members → Option Dynamic
find k no_member = none
find k (member j v rest) = elim (find k rest) [
  | some w ↦ some w
  | none ↦ if text_eq j k then some v else none
]

unfoldable pub at : Text → Members → Dynamic
unfolding find
at k m = elim (find k m) [ none ↦ nil | some v ↦ v ]

unfoldable pub as_object : Dynamic → Result Panic Members
as_object (obj m) = ok m
as_object _ = err assertion_panic

unfoldable pub as_text : Dynamic → Result Panic Text
as_text (str s) = ok s
as_text _ = err assertion_panic

unfoldable pub as_number : Dynamic → Result Panic ℕ
as_number (number x) = ok x
as_number _ = err assertion_panic

unfoldable pub as_elements : Dynamic → Result Panic Elements
as_elements (arr xs) = ok xs
as_elements _ = err assertion_panic

unfoldable pub count : Elements → ℕ
count no_element = 0
count (element x xs) = suc (count xs)

-- `xs[i]`
unfoldable pub element_at : Elements → ℕ → Result Panic Dynamic
element_at no_element i = err index_panic
element_at (element x xs) zero = ok x
element_at (element x xs) (suc i) = element_at xs i

-- A comparison of an interface with a text.
unfoldable pub is_text : Dynamic → Text → Bool
is_text (str s) t = text_eq s t
is_text _ t = false

-- `errorMsg` and `isErrorResp`
unfoldable pub error_msg : Dynamic → Result Panic Text
unfolding as_object as_text at
error_msg resp = do
  m ← as_object resp
  e ← as_object (at (codes "error") m)
  as_text (at (codes "message") e)

unfoldable pub is_error_resp : Dynamic → Result Panic Bool
unfolding as_object at is_text
is_error_resp resp = do
  m ← as_object resp
  ok (is_text (at (codes "type") m) (codes "response_error"))
