-- ===== src/ControlPlane/HostMap.antt =====
-- The table of host names with their cities (controlplane/citymapping.go).
use api_proxy.Prelude.{[], ◌∷◌}
use api_proxy.Text.{Str, bytes}
use api_proxy.Text.Maps.{Map}

unfoldable pub host_map : Map Str
host_map =
    (bytes "api-driver-london.elasticride.com", bytes "LON")
    ∷ (bytes "api-driver-london-test.elasticride.com", bytes "LON")
    ∷ (bytes "api-driver-london-staging.elasticride.com", bytes "LON")
    ∷ (bytes "api-driver.elasticride.com", bytes "LON")
    ∷ (bytes "api-driver-test.elasticride.com", bytes "LON")
    ∷ (bytes "api-driver-staging.elasticride.com", bytes "LON")
    ∷ (bytes "api-driver-dublin.elasticride.com", bytes "DUB")
    ∷ (bytes "api-driver-dublin-test.elasticride.com", bytes "DUB")
    ∷ (bytes "api-driver-dublin-staging.elasticride.com", bytes "DUB")
    ∷ (bytes "api-driver-boston.elasticride.com", bytes "BOS")
    ∷ (bytes "api-driver-boston-test.elasticride.com", bytes "BOS")
    ∷ (bytes "api-driver-boston-staging.elasticride.com", bytes "BOS")
    ∷ (bytes "api-driver-chicago.elasticride.com", bytes "CHI")
    ∷ (bytes "api-driver-chicago-test.elasticride.com", bytes "CHI")
    ∷ (bytes "api-driver-chicago-staging.elasticride.com", bytes "CHI")
    ∷ (bytes "api-driver-nyc.elasticride.com", bytes "NYC")
    ∷ (bytes "api-driver-nyc-test.elasticride.com", bytes "NYC")
    ∷ (bytes "api-driver-nyc-staging.elasticride.com", bytes "NYC")
    ∷ (bytes "api-driver-toronto.elasticride.com", bytes "TOR")
    ∷ (bytes "api-driver-toronto-test.elasticride.com", bytes "TOR")
    ∷ (bytes "api-driver-toronto-staging.elasticride.com", bytes "TOR")
    ∷ (bytes "api-driver-montreal.elasticride.com", bytes "MTR")
    ∷ (bytes "api-driver-montreal-test.elasticride.com", bytes "MTR")
    ∷ (bytes "api-driver-montreal-staging.elasticride.com", bytes "MTR")
    ∷ (bytes "api-driver-madrid.elasticride.com", bytes "MAD")
    ∷ (bytes "api-driver-madrid-test.elasticride.com", bytes "MAD")
    ∷ (bytes "api-driver-madrid-staging.elasticride.com", bytes "MAD")
    ∷ (bytes "api-driver-barcelona.elasticride.com", bytes "BCN")
    ∷ (bytes "api-driver-barcelona-test.elasticride.com", bytes "BCN")
    ∷ (bytes "api-driver-barcelona-staging.elasticride.com", bytes "BCN")
    ∷ (bytes "api-driver-dc.elasticride.com", bytes "WAS")
    ∷ (bytes "api-driver-dc-test.elasticride.com", bytes "WAS")
    ∷ (bytes "api-driver-dc-staging.elasticride.com", bytes "WAS")
    ∷ (bytes "api-driver-washington.elasticride.com", bytes "WAS")
    ∷ (bytes "api-driver-washington-test.elasticride.com", bytes "WAS")
    ∷ (bytes "api-driver-washington-staging.elasticride.com", bytes "WAS")
    ∷ (bytes "api-driver-osaka.elasticride.com", bytes "OSA")
    ∷ (bytes "api-driver-osaka-test.elasticride.com", bytes "OSA")
    ∷ (bytes "api-driver-osaka-staging.elasticride.com", bytes "OSA")
    ∷ (bytes "api-driver-tokyo.elasticride.com", bytes "TYO")
    ∷ (bytes "api-driver-tokyo-test.elasticride.com", bytes "TYO")
    ∷ (bytes "api-driver-tokyo-staging.elasticride.com", bytes "TYO")
    ∷ []
