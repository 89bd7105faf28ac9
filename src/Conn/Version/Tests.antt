-- ===== src/Conn/Version/Tests.antt =====
-- The commit hash in builds of three versions.
use libsql_client_go.Base.{◌≡◌, refl, none, some, [], ◌∷◌}
use libsql_client_go.Base.Texts.{Text, codes, text_eq}
use libsql_client_go.Conn.Version.{Module, init_commit_hash}

abbrev client : Text → Module
client version = record {
  path = codes "github.com/WillowWorks-io/libsql-client-go";
  version = version;
}

of_commit :
    init_commit_hash (some (client (codes "v0.0.0-20240902134415-c9e0a2e7a6d1") ∷ []))
    ≡ some (codes "c9e0a2")
unfolding init_commit_hash text_eq
of_commit = refl

of_release : init_commit_hash (some (client (codes "v1.2.3") ∷ [])) ≡ some (codes "unknown")
unfolding init_commit_hash text_eq
of_release = refl

-- A pre-release whose version has two dashes stops the program at its start.
of_prerelease : init_commit_hash (some (client (codes "v1.0.0-beta-1") ∷ [])) ≡ none
unfolding init_commit_hash text_eq
of_prerelease = refl
