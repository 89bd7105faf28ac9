-- ===== src/Query.antt =====
-- url.Values of Go's net/url: each key with its values, as far as the code uses it.
use libsql_client_go.Base.{Bool, false, ◌||◌, List, [], ◌∷◌, if◌then◌else◌}
use libsql_client_go.Base.Texts.{Text, text_eq}

abbrev pub Values : Type 0
Values = List (Text × List Text)

-- `Has`, and `Set` for a key that is there.
unfoldable pub has_key : Text → Values → Bool
has_key k [] = false
has_key k ((j, vs) ∷ q) = text_eq j k || has_key k q

unfoldable pub set_key : Text → Text → Values → Values
set_key k v [] = []
set_key k v ((j, vs) ∷ q) =
    let rest = set_key k v q in if text_eq j k then (j, v ∷ []) ∷ rest else (j, vs) ∷ rest

-- `Get`: the first value of the key, or nothing.
abbrev pub first_value : List Text → Text
first_value [] = []
first_value (v ∷ vs) = v

unfoldable pub get_value : Text → Values → Text
get_value k [] = []
get_value k ((j, vs) ∷ q) = let rest = get_value k q in if text_eq j k then first_value vs else rest

-- `Del`
unfoldable pub del_key : Text → Values → Values
del_key k [] = []
del_key k ((j, vs) ∷ q) = let rest = del_key k q in if text_eq j k then rest else (j, vs) ∷ rest
