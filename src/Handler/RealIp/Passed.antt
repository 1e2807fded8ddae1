-- ===== src/Handler/RealIp/Passed.antt =====
-- The address that a request is passed on with.
use api_proxy.Prelude.{
  ◌≡◌, ◌≢◌, refl, true, false, Option, none, some, [], ◌∷◌, Bool-cases, inl, inr,
}
use api_proxy.Text.{Str, bytes, is_blank}
use api_proxy.Http.Header
use api_proxy.Http.Request.{Request}
use api_proxy.Handler.RealIp.{
  split_host_port, join_host_port, first_address, own_port, port_of, with_port, real_ip,
}
use api_proxy.Handler.RealIp.Addresses.{
  IsHost, IsPort, Split, no_address, address, split_host_port-Split, split_host_port-join,
}

abbrev pub forwarded_for : Request → Str
forwarded_for r = Header.get r.header (bytes "X-Forwarded-For")

abbrev pub forwarded_port : Request → Str
forwarded_port r = Header.get r.header (bytes "X-Forwarded-Port")

-- The address is the first one given, with the port that is given, or else with that of the request's
-- own address; every other field stays.
pub record IsForwarded (r r' : Request) : Type 0 where
  pub port : Str
  pub split : split_host_port r'.remote_addr ≡ some (first_address (forwarded_for r), port)
  pub rest : record r { remote_addr = r'.remote_addr } ≡ r'
  pub given : is_blank (forwarded_port r) ≡ false → port ≡ forwarded_port r
  pub own :
      is_blank (forwarded_port r) ≡ true
      → (host : Str) × (split_host_port r.remote_addr ≡ some (host, port))

-- Why a request keeps its own address.
pub data Outcome (r : Request) : Request → Type 0 where
  direct : forwarded_for r ≡ [] → Outcome r r
  no_port : forwarded_port r ≡ [] → split_host_port r.remote_addr ≡ none → Outcome r r
  forwarded : (r' : Request) → forwarded_for r ≢ [] → IsForwarded r r' → Outcome r r'

blank_eq : (s : Str) → is_blank s ≡ true → s ≡ []
blank_eq [] h = refl
blank_eq (c ∷ s) h = cc

given_ne : (s : Str) → is_blank s ≡ false → s ≢ []
given_ne [] h = cc
given_ne (c ∷ s) h = λ e. cc

module _ (r : Request) (is_host : IsHost (first_address (forwarded_for r))) where
  joined :
      (port : Str)
      → IsPort port
      → (is_blank (forwarded_port r) ≡ false → port ≡ forwarded_port r)
      → (is_blank (forwarded_port r) ≡ true
          → (host : Str) × (split_host_port r.remote_addr ≡ some (host, port)))
      → IsForwarded r
          (record r { remote_addr = join_host_port (first_address (forwarded_for r)) port })
  joined port is_port given own = record {
    port = port;
    split = split_host_port-join (first_address (forwarded_for r)) port is_host is_port;
    rest = refl;
    given = given;
    own = own;
  }

  own_port-Outcome :
      (o : Option (Str × Str))
      → Split o
      → split_host_port r.remote_addr ≡ o
      → forwarded_for r ≢ []
      → is_blank (forwarded_port r) ≡ true
      → Outcome r (with_port r (first_address (forwarded_for r)) (own_port o))
  unfolding own_port with_port
  own_port-Outcome _ no_address e there blank = no_port (blank_eq _ blank) e
  own_port-Outcome _ (address host port is_port) e there blank =
      forwarded _ there (joined port is_port (λ given. cc) (λ _. (host, e)))

  -- If the first address of X-Forwarded-For has no brackets, and X-Forwarded-Port has neither brackets
  -- nor a colon, then a request is passed on with that address, and with that port or else the one of
  -- its own address, and is otherwise as it came; it is passed on as it came if there is no such header,
  -- or if there is no port in the headers and its own address cannot be split.
  pub real_ip-Outcome : IsPort (forwarded_port r) → Outcome r (real_ip r)
  unfolding real_ip port_of with_port
  real_ip-Outcome is_port = elim (Bool-cases (is_blank (forwarded_for r))) [
    | inl blank ↦ rw blank (direct (blank_eq _ blank))
    | inr there ↦ elim (Bool-cases (is_blank (forwarded_port r))) [
      | inl no_port' ↦ rw there (
          rw no_port' (
            own_port-Outcome (split_host_port r.remote_addr) (split_host_port-Split r.remote_addr)
              refl (given_ne _ there) no_port'))
      | inr given ↦ rw there (
          rw given (
            forwarded _ (given_ne _ there)
              (joined (forwarded_port r) is_port (λ _. refl) (λ blank. cc))))
    ]
  ]
