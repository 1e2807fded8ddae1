-- ===== src/Handler/RealIp/Tests.antt =====
-- Addresses, and the theorems about them at concrete ones.
use api_proxy.Prelude.{◌≡◌, refl, some, [], ◌∷◌}
use api_proxy.Text.{bytes}
use api_proxy.Http.Request.{Request}
use api_proxy.Http.Run.{run_http}
use api_proxy.ControlPlane.Samples.{london}
use api_proxy.Handler.RealIp.{
  split_host_port, join_host_port, first_address, port_of, real_ip, has_byte, cut_last,
}
use api_proxy.Handler.RealIp.Addresses.{split_host_port-join}
use api_proxy.Handler.RealIp.Passed.{Outcome, real_ip-Outcome}

joined_test :
    split_host_port (join_host_port (bytes "::1") (bytes "80")) ≡ some (bytes "::1", bytes "80")
unfolding bytes has_byte
joined_test =
    split_host_port-join (bytes "::1") (bytes "80") (record { no_open = refl; no_close = refl })
      (record { no_open = refl; no_close = refl; no_colon = refl })

abbrev proxied : Request
proxied = record london {
  header = (bytes "X-Forwarded-For", bytes "10.1.1.1, 10.2.2.2" ∷ []) ∷ [];
  remote_addr = bytes "127.0.0.1:4711";
}

proxied_test : (real_ip proxied).remote_addr ≡ bytes "10.1.1.1:4711"
unfolding run_http real_ip port_of split_host_port join_host_port first_address has_byte cut_last
proxied_test = refl

real_ip-Outcome_example : Outcome proxied (real_ip proxied)
unfolding run_http has_byte first_address
real_ip-Outcome_example =
    real_ip-Outcome proxied (record { no_open = refl; no_close = refl })
      (record { no_open = refl; no_close = refl; no_colon = refl })
