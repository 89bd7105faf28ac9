-- ===== src/Conn/Version.antt =====
-- `init` of libsql/internal/http/hranaV2/hranaV2.go: the commit hash that the requests carry.
mod Tests
use libsql_client_go.Base.{
  Option, none, some, List, [], ◌∷◌, ◌++◌, ◌==◌, leb, if◌then◌else◌, length, take,
}
use libsql_client_go.Base.Texts.{Text, codes, text_eq}

-- A module of the build's dependencies, as debug.ReadBuildInfo gives them.
pub record Module : Type 0 where
  pub path : Text
  pub version : Text

abbrev in_first : List Text → Text → List Text
in_first [] c = c ∷ []
in_first (p ∷ ps) c = (c ++ p) ∷ ps

-- strings.Split(version, "-")
unfoldable split_dashes : Text → List Text
split_dashes [] = [] ∷ []
split_dashes (c ∷ s) =
    let rest = split_dashes s in if c == 45 then [] ∷ rest else in_first rest (c ∷ [])

-- `parts[2][:6]`, which panics on a shorter text.
abbrev first_six : Text → Option Text
first_six part = if leb 6 (length part) then some (take 6 part) else none

-- The loop over the dependencies; `none` is a panic.
unfoldable find_commit_hash : List Module → Option Text
unfolding split_dashes
find_commit_hash [] = some (codes "unknown")
find_commit_hash (m ∷ ms) =
    let rest = find_commit_hash ms in
    if text_eq m.path (codes "github.com/WillowWorks-io/libsql-client-go")
    then elim (split_dashes m.version) [
      | [] ↦ rest
      | a ∷ [] ↦ rest
      | a ∷ b ∷ [] ↦ rest
      | a ∷ b ∷ c ∷ [] ↦ first_six c
      | a ∷ b ∷ c ∷ d ∷ more ↦ rest
    ]
    else rest

unfoldable pub init_commit_hash : Option (List Module) → Option Text
unfolding find_commit_hash
init_commit_hash none = some (codes "unknown")
init_commit_hash (some deps) = find_commit_hash deps
