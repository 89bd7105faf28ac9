-- ===== src/Connector/Tests.antt =====
-- Connectors on concrete inputs. The toy parser takes every text as the query of libsql://db, and
-- every query as a token.
use libsql_client_go.Base.{◌≡◌, refl, ap, true, false, some, List, [], ◌∷◌, ◌++◌}
use libsql_client_go.Base.Texts.{Text, codes, text_eq}
use libsql_client_go.Base.Results.{ok}
use libsql_client_go.Connector.Options.{
  Config, empty_config, ConfigOption, with_auth_token, with_tls, already_set, apply_all,
}
use libsql_client_go.Connector.InForce.{last_interval, InForce, apply_all-InForce}
use libsql_client_go.Connector.Parts.{Url, Platform, http_connector, Connector, token_conflict}
use libsql_client_go.Connector.Build.{connector, new_connector}
use libsql_client_go.Connector.Open.{open_url}
use libsql_client_go.Connector.Agreement.{opened_decorated, new_connector-open_url}
use libsql_client_go.Connector.Precedence.{Chosen, connector-Chosen}

abbrev toy_url : Text → Url Unit
toy_url raw = record { scheme = codes "libsql"; host = codes "db"; raw_query = raw; rest = tt }

abbrev toy_query : Text → List (Text × List Text)
toy_query [] = []
toy_query (c ∷ raw) = (codes "authToken", (c ∷ raw) ∷ []) ∷ []

abbrev toy_platform : Platform
toy_platform = record {
  Rest = Unit;
  parse = λ raw. some (toy_url raw);
  parse_query = toy_query;
  port = λ host. [];
  print = λ u. u.scheme ++ codes "://" ++ u.host ++ u.raw_query;
  drivers = [];
  opens = λ name url. false;
}

new_connector-open_url_example :
    opened_decorated (new_connector toy_platform (codes "secret") []).0
    ≡ open_url toy_platform (codes "secret")
new_connector-open_url_example = new_connector-open_url toy_platform (codes "secret")

abbrev with_token : Config
with_token = record empty_config { auth_token = some (codes "mine") }

abbrev made : Connector
made = http_connector (codes "https://db") (codes "mine") (codes "db") false [] []

-- The option wins over the URL's token, with a warning.
option_wins : connector toy_platform with_token (codes "secret") ≡ (ok made, token_conflict ∷ [])
unfolding connector text_eq
option_wins = refl

connector-Chosen_example : Chosen toy_platform with_token (toy_url (codes "secret")) made
connector-Chosen_example =
    connector-Chosen toy_platform with_token (codes "secret") (toy_url (codes "secret")) made refl
      refl not_file (ap (λ l. l.0) option_wins)
  where
    not_file : text_eq (codes "libsql") (codes "file") ≡ false
    not_file = unfold text_eq in refl

abbrev two_options : List ConfigOption
two_options = with_auth_token (codes "mine") ∷ with_tls true ∷ []

abbrev both_set : Config
both_set = record with_token { tls = some true }

two_applied : apply_all two_options empty_config ≡ (both_set, [])
unfolding apply_all
two_applied = refl

-- A second token is refused, and the first stays.
set_twice :
    apply_all (with_auth_token (codes "mine") ∷ with_auth_token (codes "other") ∷ []) empty_config
    ≡ (with_token, already_set ∷ [])
unfolding apply_all
set_twice = refl

apply_all-InForce_example :
    InForce (with_tls true) both_set
    × (both_set.keepalive_interval ≡ last_interval empty_config.keepalive_interval two_options)
apply_all-InForce_example =
    apply_all-InForce two_options empty_config both_set 1 (with_tls true) two_applied refl
