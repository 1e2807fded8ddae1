-- ===== src/StatusMonitor/ZooKeeper.antt =====
-- The ZooKeeper node behind the failover lock (statusmonitor/zk.go). The client of the service
-- library is a parameter: its three calls on one node, any of which may fail, and what ZooKeeper
-- documents of them while the sessions last.
use api_proxy.Prelude.{◌≡◌, ◌≢◌, Option, none, some, [], ◌⊎◌}
use api_proxy.Text.{Str}

pub record ZooKeeper : Type 1 where
  pub Store : Type 0
  -- What the node holds, if it is there. No call of the client tells this for sure.
  pub node : Store → Option Str
  -- `zk.Create` of an ephemeral node: the path that was made, or an error, which leaves "".
  pub create : Store → Str → Store × Option Str
  pub delete : Store → Str → Store
  -- `zk.Get`: what the node holds, or an error.
  pub read : Store → Option Str
  -- A create that gives a path has made a node that was not there.
  pub create_made :
      (s s' : Store) (data' path : Str)
      → create s data' ≡ (s', some path)
      → (node s ≡ none) × (node s' ≡ some data') × (path ≢ [])
  -- A create that gives an error has made nothing, or its answer was lost.
  pub create_failed :
      (s s' : Store) (data' : Str)
      → create s data' ≡ (s', none)
      → (node s' ≡ node s) ⊎ ((node s ≡ none) × (node s' ≡ some data'))
  -- What is read stands there.
  pub read_held : (s : Store) (held : Str) → read s ≡ some held → node s ≡ some held

-- No call fails for want of a connection.
pub record Reliable (z : ZooKeeper) : Type 0 where
  -- A node that is not there can be created, holds what it is given, and gives a path, by which it
  -- can be deleted.
  pub create_new :
      (s : z.Store) (data' : Str)
      → z.node s ≡ none
      → (path : Str) × (s' : z.Store) × (z.create s data' ≡ (s', some path))
        × (z.node s' ≡ some data')
        × (path ≢ [])
        × (z.node (z.delete s' path) ≡ none)
  -- A node that is there cannot be created again, and stays as it is.
  pub create_taken :
      (s : z.Store) (data' held : Str) → z.node s ≡ some held → z.create s data' ≡ (s, none)
  -- A read gives what stands there.
  pub read_node : (s : z.Store) → z.read s ≡ z.node s
