-- ===== src/ControlPlane/Types.antt =====
-- The types of the control plane's configuration (controlplane/types.go). A pointer that may be nil
-- is an `Option`; a Go map is an association list in the order of one iteration.
use api_proxy.Prelude.{ℕ, Option, List}
use api_proxy.Prelude.Int.{ℤ}
use api_proxy.Text.{Str, bytes}
use api_proxy.Text.Maps.{Map}

-- What a rule samples by; `unknown` is a number that has no constant.
pub data Sampler : Type 0 where
  random customer driver device session : Sampler
  unknown : ℤ → Sampler

-- The outcome attached to a rule; `other` is a number that has no constant.
pub data Action : Type 0 where
  proxy_to_h1 send_to_h2 throttle deprecate : Action
  other : ℤ → Action

-- `Action.String`.
unfoldable pub action_string : Action → Str
action_string proxy_to_h1 = bytes "H1"
action_string send_to_h2 = bytes "H2"
action_string throttle = bytes "Throttle"
action_string deprecate = bytes "Deprecate"
action_string (other n) = bytes "?"

-- A float32, as its exact value in units of 2^-149.
abbrev pub Float32 : Type 0
Float32 = ℤ

pub record Match : Type 0 where
  pub hob : Str
  pub path : Str
  pub source : Str
  pub proportion : Float32
  pub sampler : Sampler

pub record Payload : Type 0 where
  pub body : Str
  pub http_status : ℕ
  pub headers : Map Str

pub record Rule : Type 0 where
  pub match : Option Match
  pub action : Action
  pub payload : Option Payload
  pub weight : ℤ

-- Rules by their IDs; the configuration may give null for one.
abbrev pub Rules : Type 0
Rules = Map (Option Rule)

abbrev pub SortedRules : Type 0
SortedRules = List (Option Rule)

abbrev pub Urls : Type 0
Urls = Map Str

pub record Region : Type 0 where
  pub id : Str
  pub status : Str
  pub failover : List Str
  pub apps : Map (Option Urls)

abbrev pub Regions : Type 0
Regions = Map (Option Region)

abbrev pub HobRegions : Type 0
HobRegions = Map Str

abbrev pub HobModes : Type 0
HobModes = Map Str
