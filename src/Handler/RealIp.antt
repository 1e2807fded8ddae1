-- ===== src/Handler/RealIp.antt =====
-- The address of the client behind the load balancers (handler/realip.go), with `net.SplitHostPort`
-- and `net.JoinHostPort` of the language's library.
pub mod Addresses
pub mod Passed
mod Tests
use api_proxy.Prelude.{
  ℕ, ◌==◌, Bool, true, false, ◌&&◌, ◌||◌, Option, none, some, List, [], ◌∷◌, ◌++◌, if◌then◌else◌,
}
use api_proxy.Text.{Str, bytes, is_blank, has_prefix}
use api_proxy.Http.Header
use api_proxy.Http.Query.{cut}
use api_proxy.Http.Request.{Request}
use api_proxy.Http.Writer.{Writer}

-- Whether a byte stands in a text.
unfoldable pub has_byte : ℕ → Str → Bool
has_byte b [] = false
has_byte b (c ∷ s) = c == b || has_byte b s

-- One byte more in front of a text, whose last occurrence of `b` is known.
later_cut : ℕ → ℕ → Str → Option (Str × Str) → Option (Str × Str)
later_cut b c s none = if c == b then some ([], s) else none
later_cut b c s (some (before, after)) = some (c ∷ before, after)

-- The text before and after the last occurrence of a byte.
unfoldable pub cut_last : Str → ℕ → Option (Str × Str)
unfolding later_cut
cut_last [] b = none
cut_last (c ∷ s) b = later_cut b c s (cut_last s b)

-- Behind the bracket that closes an IPv6 address: exactly one colon before the port.
after_bracket : Str → Option Str → Option (Str × Str)
after_bracket host none = none
after_bracket host (some []) = none
after_bracket host (some (c ∷ port)) =
    if c == b':' && not_more port then some (host, port) else none
  where
    not_more : Str → Bool
    not_more port = if has_byte b':' port then false else true

-- Neither bracket stands where none belongs.
no_brackets : Str → Str → Option (Str × Str)
no_brackets host port =
    if has_byte b'[' host || (has_byte b']' host || (has_byte b'[' port || has_byte b']' port))
    then none
    else some (host, port)

plain_host : Option (Str × Str) → Option (Str × Str)
unfolding no_brackets
plain_host none = none
plain_host (some (host, port)) = if has_byte b':' host then none else no_brackets host port

bracketed : Option (Str × Str) → Option (Str × Str)
bracketed none = none
bracketed (some (host, port)) =
    if has_byte b'[' host || (has_byte b'[' port || has_byte b']' port)
    then none
    else some (host, port)

from_bracket : Str × Option Str → Option (Str × Str)
unfolding after_bracket
from_bracket (host, rest) = after_bracket host rest

-- `net.SplitHostPort`: host and port, or `none` for an error.
unfoldable pub split_host_port : Str → Option (Str × Str)
unfolding plain_host bracketed from_bracket
split_host_port [] = none
split_host_port (c ∷ s) =
    if c == b'[' then bracketed (from_bracket (cut s b']')) else plain_host (cut_last (c ∷ s) b':')

-- `net.JoinHostPort`.
unfoldable pub join_host_port : Str → Str → Str
join_host_port host port =
    if has_byte b':' host then (b'[' ∷ host) ++ (b']' ∷ b':' ∷ port) else host ++ (b':' ∷ port)

-- `strings.SplitN(s, ", ", 2)[0]`.
unfoldable pub first_address : Str → Str
first_address [] = []
first_address (c ∷ s) =
    let rest = first_address s in if has_prefix (c ∷ s) (bytes ", ") then [] else c ∷ rest

-- The port of the request's own address.
own_port : Option (Str × Str) → Option Str
own_port none = none
own_port (some (_, port)) = some port

-- The port: that of the header, or else that of the request's own address.
unfoldable pub port_of : Request → Option Str
unfolding own_port
port_of r =
    let port = Header.get r.header (bytes "X-Forwarded-Port") in
    if is_blank port then own_port (split_host_port r.remote_addr) else some port

with_port : Request → Str → Option Str → Request
with_port r host none = r
with_port r host (some port) = record r { remote_addr = join_host_port host port }

-- The request that is passed on.
unfoldable pub real_ip : Request → Request
unfolding with_port
real_ip r =
    let addr = Header.get r.header (bytes "X-Forwarded-For") in
    if is_blank addr then r else with_port r (first_address addr) (port_of r)

-- `ServeHTTP`, over the next handler.
unfoldable pub serve_real_ip {ℓ} : {A : Type ℓ} → (Writer → Request → A) → Writer → Request → A
serve_real_ip next w r = next w (real_ip r)
