-- ===== src/StatusMonitor/Samples.antt =====
-- A store with the one node, for tests.
use api_proxy.Prelude.{◌≡◌, ◌≢◌, refl, Option, none, some, [], ◌⊎◌, inl, subst}
use api_proxy.Text.{Str, bytes}
use api_proxy.StatusMonitor.ZooKeeper.{ZooKeeper, Reliable}

abbrev pub lock_path : Str
lock_path = bytes "/hailo-2-api-az-failover"

-- The node, if it is there.
unfoldable pub make : Option Str → Str → Option Str × Option Str
make none az = (some az, some lock_path)
make (some held) az = (some held, none)

pub blank : lock_path ≢ []
unfolding bytes
blank = λ e. cc

pub made : (st : Option Str) (az : Str) → st ≡ none → make st az ≡ (some az, some lock_path)
unfolding make
made none az free = refl
made (some held) az free = cc

pub taken : (st : Option Str) (az held : Str) → st ≡ some held → make st az ≡ (st, none)
unfolding make
taken none az held e = cc
taken (some h) az held e = refl

pub make_made :
    (st st' : Option Str) (az path : Str)
    → make st az ≡ (st', some path)
    → (st ≡ none) × (st' ≡ some az) × (path ≢ [])
unfolding make
make_made none st' az path e =
    let at : lock_path ≡ path = cc in (refl, cc, subst (λ p. p ≢ []) at blank)
make_made (some held) st' az path e = cc

pub make_failed :
    (st st' : Option Str) (az : Str)
    → make st az ≡ (st', none)
    → (st' ≡ st) ⊎ ((st ≡ none) × (st' ≡ some az))
unfolding make
make_failed none st' az e = cc
make_failed (some held) st' az e = inl cc

abbrev pub one_node : ZooKeeper
one_node = record {
  Store = Option Str;
  node = λ st. st;
  create = make;
  delete = λ st path. none;
  read = λ st. st;
  create_made = make_made;
  create_failed = make_failed;
  read_held = λ st held e. e;
}

abbrev pub one_node-Reliable : Reliable one_node
one_node-Reliable = record {
  create_new = λ st az free. (lock_path, some az, made st az free, refl, blank, refl);
  create_taken = taken;
  read_node = λ st. refl;
}

pub lost_made :
    (st st' : Option Str) (az path : Str)
    → ◌≡◌ {A = Option Str × Option Str} (st, none) (st', some path)
    → (st ≡ none) × (st' ≡ some az) × (path ≢ [])
lost_made st st' az path e = cc

pub lost_failed :
    (st st' : Option Str) (az : Str)
    → ◌≡◌ {A = Option Str × Option Str} (st, none) (st', none)
    → (st' ≡ st) ⊎ ((st ≡ none) × (st' ≡ some az))
lost_failed st st' az e = inl cc

pub unread : (st : Option Str) (held : Str) → ◌≡◌ {A = Option Str} none (some held) → st ≡ some held
unread st held e = cc

-- The same store when the connection is lost: every call gives an error and changes nothing.
abbrev pub cut_off : ZooKeeper
cut_off = record {
  Store = Option Str;
  node = λ st. st;
  create = λ st az. (st, none);
  delete = λ st path. st;
  read = λ st. none;
  create_made = lost_made;
  create_failed = lost_failed;
  read_held = unread;
}
