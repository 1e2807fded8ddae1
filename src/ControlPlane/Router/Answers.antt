-- ===== src/ControlPlane/Router/Answers.antt =====
-- The router's answers about regions, host names and modes as functions of the fixed view.
use api_proxy.Prelude.{
  ℕ, ◌≢◌, ◌≡◌, refl, ap, sym, ◌∙◌, true, ◌&&◌, Option, none, some, inl, inr, arith, if◌then◌else◌,
  Bool-cases, [], ◌∷◌,
}
use api_proxy.Prelude.Int.{ℤ}
use api_proxy.Text.{Str, bytes, is_blank, str_eq, to_upper}
use api_proxy.Text.Laws.{str_eq_iff, str_eq_refl}
use api_proxy.Http.Header
use api_proxy.Http.Writer.{Writer}
use api_proxy.Session.{Order}
use api_proxy.ControlPlane.Types.{Region, send_to_h2, Float32}
use api_proxy.ControlPlane.Regions.{urls, find_mode}
use api_proxy.ControlPlane.Extractor.{Extractor, hob, source, header}
use api_proxy.ControlPlane.Extractor.View.{View, observe, hob-observe, source-observe}
use api_proxy.ControlPlane.Extractor.Front.{front-observe}
use api_proxy.ControlPlane.Router.{
  Config, HostCheck, no_hob, no_region, pinned, api_url, region_for, region, pin_to,
  correct_hostname, get_hob_mode, mode_of_hob, route, route_header, force_route, forced,
}
use api_proxy.ControlPlane.Router.Choice.{forced_route, route-forced}

-- The mode for a routing header and a city code: a forced route's, or else that of the city.
unfoldable pub mode_at : Config → Str → Str → Str
mode_at c route code =
    if str_eq route (bytes "H1")
    then bytes "h1"
    else if str_eq route (bytes "H2")
    then bytes "h2"
    else find_mode c.hob_modes code

unfoldable pub mode_for : Config → View → Str
unfolding mode_at
mode_for c v = mode_at c v.route v.hob

-- The check of a host name against the region that serves the city.
unfoldable pub pinning_to : Option Region → ℤ → View → HostCheck
unfolding api_url
pinning_to none version v = no_region version
pinning_to (some r) version v =
    pinned (str_eq v.host (api_url (urls r v.source))) (urls r v.source) version

unfoldable pub pinning_for : Config → Writer → View → HostCheck
unfolding pinning_to
pinning_for c w v =
    if is_blank v.hob && is_blank (Header.get w.header (bytes "X-H-HOB"))
    then no_hob
    else pinning_to (region_for c v.hob) c.region_version v

mode_at_other :
    (c : Config) (s code : Str)
    → s ≢ bytes "H1"
    → s ≢ bytes "H2"
    → mode_at c s code ≡ find_mode c.hob_modes code
unfolding mode_at
mode_at_other c s code not_h1 not_h2 =
    ground (arith, str_eq_iff s (bytes "H1"), str_eq_iff s (bytes "H2"))

blank_upper : (s : Str) → is_blank s ≡ true → to_upper s ≡ []
unfolding to_upper
blank_upper [] h = refl
blank_upper (c ∷ s) h = cc

h2_nonblank : bytes "H2" ≢ []
unfolding bytes
h2_nonblank h = cc

force_route_h2 :
    (s : Str)
    → to_upper s ≡ bytes "H2"
    → (if is_blank s then none else force_route s) ≡ some (forced send_to_h2)
unfolding force_route
force_route_h2 s upper = elim (Bool-cases (is_blank s)) [
  | inl blank ↦ absurd (h2_nonblank (sym upper ∙ blank_upper s blank))
  | inr given ↦ rw given (rw upper (rw (str_eq_refl (bytes "H2"))))
]

module _ (order : Order) where
  pub region-observe :
      (c : Config) (e : Extractor)
      → ((region order c e).1 ≡ (region_for c (observe order e).hob, c.region_version))
        × (observe order (region order c e).0 ≡ observe order e)
  unfolding region
  region-observe c e =
      let (answer, keeps) = hob-observe order e in
      (ap (λ h. (region_for c h, c.region_version)) answer, keeps)

  get_hob_mode-mode_at :
      (c : Config) (e : Extractor)
      → ((get_hob_mode order c e).1 ≡ mode_at c (header e route_header) (observe order e).hob)
        × (observe order (get_hob_mode order c e).0 ≡ observe order e)
  unfolding get_hob_mode mode_of_hob mode_at
  get_hob_mode-mode_at c e =
      let (answer, keeps) = hob-observe order e in
      elim (Bool-cases (str_eq (header e route_header) (bytes "H1"))) [
        | inl h1 ↦ rw h1 (refl, refl)
        | inr no_h1 ↦ elim (Bool-cases (str_eq (header e route_header) (bytes "H2"))) [
          | inl h2 ↦ rw no_h1 (rw h2 (refl, refl))
          | inr no_h2 ↦ rw no_h1 (rw no_h2 (ap (find_mode c.hob_modes) answer, keeps))
        ]
      ]

  -- The mode depends on the view alone, and reading it changes nothing that can be observed.
  pub get_hob_mode-observe :
      (c : Config) (e : Extractor)
      → ((get_hob_mode order c e).1 ≡ mode_for c (observe order e))
        × (observe order (get_hob_mode order c e).0 ≡ observe order e)
  unfolding mode_for
  get_hob_mode-observe c e =
      let (answer, keeps) = get_hob_mode-mode_at c e in
      let (_, same) = front-observe order e in
      (answer ∙ ap (λ s. mode_at c s (observe order e).hob) same, keeps)

  pin_to-observe :
      (r : Option Region) (version : ℤ) (e : Extractor) (v : View)
      → observe order e ≡ v
      → ((pin_to order r version e).1 ≡ pinning_to r version v)
        × (observe order (pin_to order r version e).0 ≡ v)
  unfolding pin_to pinning_to
  pin_to-observe none version e v same = (refl, same)
  pin_to-observe (some r) version e v same =
      let (answer, keeps) = source-observe order e in
      let (host_is, _) = front-observe order e in
      let app : (source order e).1 ≡ v.source = answer ∙ ap (λ v. v.source) same in
      (rw (app, host_is ∙ ap (λ (v : View). v.host) same) refl, keeps ∙ same)

  conclude :
      (c : Config) (w : Writer) (v : View) (e' : Extractor) (code : Str)
      (x : Extractor × (Option Region × ℤ))
      → code ≡ v.hob
      → observe order e' ≡ v
      → x.1 ≡ (region_for c v.hob, c.region_version)
      → observe order x.0 ≡ v
      → let y =
          if is_blank code && is_blank (Header.get w.header (bytes "X-H-HOB"))
          then (e', no_hob)
          else pin_to order x.1.0 x.1.1 x.0 in
        (y.1 ≡ pinning_for c w v) × (observe order y.0 ≡ v)
  unfolding pinning_for
  conclude c w v e' code x is_code same serves same' =
      elim (Bool-cases (is_blank v.hob && is_blank (Header.get w.header (bytes "X-H-HOB")))) [
        | inl blank ↦ rw is_code (rw blank (refl, same))
        | inr given ↦ rw is_code (
            rw given (rw serves (pin_to-observe (region_for c v.hob) c.region_version x.0 v same')))
      ]

  -- `CorrectHostname` answers as the check of the view does: an error without a city code or without
  -- a region, and otherwise whether the host is the region's "api" URL for the source, with the URLs
  -- and the version of that region; and it changes nothing that can be observed.
  pub correct_hostname-observe :
      (c : Config) (w : Writer) (e : Extractor)
      → ((correct_hostname order c w e).1 ≡ pinning_for c w (observe order e))
        × (observe order (correct_hostname order c w e).0 ≡ observe order e)
  unfolding correct_hostname
  correct_hostname-observe c w e =
      let (answer, keeps) = hob-observe order e in
      let (serves, keeps') = region-observe c (hob order e).0 in
      conclude c w (observe order e) (hob order e).0 (hob order e).1
        (region order c (hob order e).0) answer keeps
        (serves ∙ ap (λ v. (region_for c v.hob, c.region_version)) keeps) (keeps' ∙ keeps)

-- A forced route is read in any case by `Route`, and in capitals only by `GetHobMode`: a request that
-- forces H2 in another case is sent to H2, while the mode that is reported is the city's.
pub forced_in_other_case :
    (order : Order) (roll : ℕ → Float32) (c c' : Config) (e : Extractor)
    → to_upper (header e route_header) ≡ bytes "H2"
    → header e route_header ≢ bytes "H2"
    → header e route_header ≢ bytes "H1"
    → (route order roll c e ≡ (e, some (forced send_to_h2)))
      × ((get_hob_mode order c' e).1 ≡ find_mode c'.hob_modes (observe order e).hob)
unfolding forced_route
forced_in_other_case order roll c c' e upper not_h2 not_h1 =
    let (mode, _) = get_hob_mode-mode_at order c' e in
    (
      route-forced order roll c e (force_route_h2 (header e route_header) upper),
      mode ∙ mode_at_other c' (header e route_header) (observe order e).hob not_h1 not_h2,
    )
