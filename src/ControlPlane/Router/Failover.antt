-- ===== src/ControlPlane/Router/Failover.antt =====
-- Which region a city code is served from.
use api_proxy.Prelude.{
  ◌≡◌, refl, sym, ◌∙◌, true, false, Option, none, some, inl, inr, Bool-cases, List, [], ◌∷◌, ◌++◌,
  All, All-append, subst,
}
use mathlib.Core.List.{append_assoc}
use api_proxy.Text.{Str}
use api_proxy.ControlPlane.Types.{Region, Regions}
use api_proxy.ControlPlane.Regions.{find_region, is_online}
use api_proxy.ControlPlane.Router.{
  Config, region_at, region_for, or_fallback, serve_from, failover, online_or,
}

abbrev pub IsOffline : Option Region → Type 0
IsOffline r = is_online r ≡ false

-- How a region comes to serve in the place of `primary`.
pub data Serves (rs : Regions) (primary : Region) (r : Region) : Type 0 where
  -- The primary is online.
  direct : is_online (some primary) ≡ true → r ≡ primary → Serves rs primary r
  -- The primary is offline, and this is the first of its failovers that is online.
  failed_over :
      IsOffline (some primary)
      → (before after : List Str) (k : Str) → primary.failover ≡ before ++ k ∷ after
      → All (λ j. IsOffline (region_at rs j)) before
      → region_at rs k ≡ some r
      → is_online (some r) ≡ true
      → Serves rs primary r
  -- All are offline: the primary, for want of a better one.
  stuck :
      IsOffline (some primary)
      → All (λ j. IsOffline (region_at rs j)) primary.failover
      → r ≡ primary
      → Serves rs primary r

module _ (rs : Regions) (primary : Region) (offline : IsOffline (some primary)) where
  abbrev AreOffline : List Str → Type 0
  AreOffline ks = All (λ j. IsOffline (region_at rs j)) ks

  -- The region chosen from the failovers `ks`, behind those of `before`, which are offline.
  failover-Serves :
      (before ks : List Str)
      → primary.failover ≡ before ++ ks
      → AreOffline before
      → Serves rs primary (failover rs ks primary)
  unfolding failover
  failover-Serves before [] split passed =
      stuck offline (subst AreOffline (sym split) (All-append _ before [] passed tt)) refl
  failover-Serves before (k ∷ ks) split passed = by_region (region_at rs k) refl (λ down.
      failover-Serves (before ++ k ∷ []) ks (split ∙ sym (append_assoc before (k ∷ []) ks))
        (All-append _ before (k ∷ []) passed (down, tt)))
    where
      by_region :
          (o : Option Region)
          → region_at rs k ≡ o
          → (IsOffline (region_at rs k) → Serves rs primary (failover rs ks primary))
          → Serves rs primary (online_or o (failover rs ks primary))
      by_region none at later = later (rw at (unfold is_online in refl))
      by_region (some r) at later = elim (Bool-cases (is_online (some r))) [
        | inl up ↦ rw up (failed_over offline before ks k split passed at up)
        | inr down ↦ rw down (later (rw at down))
      ]

-- A city code that has a region of its own, or else the fallback region, is always served: by that
-- region if it is online, else by the first of its failovers that is online, else by itself.
pub region_for-Serves :
    (c : Config) (code : Str) (primary : Region)
    → or_fallback c.regions (region_at c.regions (find_region c.hob_regions code)) ≡ some primary
    → (r : Region) × (region_for c code ≡ some r) × Serves c.regions primary r
unfolding region_for serve_from
region_for-Serves c code primary at = elim (Bool-cases (is_online (some primary))) [
  | inl up ↦ (primary, rw at (rw up), direct up refl)
  | inr down ↦ (
    failover c.regions primary.failover primary,
    rw at (rw down),
    failover-Serves c.regions primary down [] primary.failover refl tt,
  )
]
