-- ===== src/Auth/Tests/Rotated.antt =====
-- The rotation of a refresh token that is valid.
use mock_salesforce.Base.{◌≡◌, refl, false, none, codes, str_eq, lookup}
use mock_salesforce.Auth.Tokens.{TokenInfo, lookup_token}
use mock_salesforce.Auth.Endpoint.{granted, exchange_refresh, rotate_refresh, refreshed_access}
use mock_salesforce.Auth.Endpoint.Rotation.{exchange_refresh_rotates}
use mock_salesforce.Auth.Tests.{old_refresh, table, config, crypto}

abbrev live : TokenInfo
live = record old_refresh { token = codes "r2"; revoked = false }

exchange_refresh_rotates_example :
    ((exchange_refresh config crypto 30 (codes "r2") table).0
      ≡ granted
          (refreshed_access crypto 30 live (rotate_refresh crypto 30 live table).0).token
          (rotate_refresh crypto 30 live table).0)
    × (lookup_token 31 (codes "r2") (exchange_refresh config crypto 30 (codes "r2") table).1 ≡ none)
unfolding lookup_token lookup str_eq refreshed_access
exchange_refresh_rotates_example =
    exchange_refresh_rotates config crypto 30 31 table live refl refl refl refl
