-- ===== src/Handler/Server/Chain.antt =====
-- What the chain of handlers does with a request before a page serves it.
use api_proxy.Prelude.{
  ◌≡◌, ◌≢◌, ◌∙◌, ap, sym, subst, true, false, Option, none, some, List, ◌++◌, ◌⊎◌, inl, inr,
  Bool-cases, if◌then◌else◌,
}
use api_proxy.Text.{Str, bytes, str_eq, is_blank}
use api_proxy.Text.Laws.{str_eq_iff}
use api_proxy.Http.Header
use api_proxy.Http.Header.{Header}
use api_proxy.Http.Request.{Request}
use api_proxy.Http.Writer.{Writer, set_header, write_header}
use api_proxy.Session.{Order, session_id}
use api_proxy.Throttling.State.{Shared, offer}
use api_proxy.Throttling.Request.{
  serve_http-Answer, IsThrottled, throttled_json, json_type, bucket_of,
}
use api_proxy.Handler.Cors.{serve_cors, is_allowed}
use api_proxy.Handler.Cors.Preflight.{serve_cors-Outcome, IsOpen, origin_of}
use api_proxy.Handler.Cors.Preflight as Preflight
use api_proxy.Handler.Pci.{serve_pci}
use api_proxy.Handler.Pci.Sensitive.{serve_pci-IsSensitive, IsSensitive}
use api_proxy.Handler.RealIp.{real_ip, serve_real_ip}
use api_proxy.Handler.Mux.{clean_path}
use api_proxy.Handler.Mux.Longest.{Longest, matched-Longest}
use api_proxy.Handler.Server.{Page, patterns, Handlers, serve_found, serve_mux, serve}

module _ (site : Handlers) where
  -- What the mux does: 400 for "*", a redirection to the clean path, or the page of the longest pattern.
  pub data Routed (w : Writer) (r : Request) : Writer → Type 0 where
    starred :
        r.path ≡ bytes "*"
        → Routed w r (write_header (set_header w (bytes "Connection") (bytes "close")) 400)
    moved :
        r.path ≢ bytes "*"
        → r.method ≢ bytes "CONNECT"
        → clean_path r.path ≢ r.path
        → Routed w r (site.redirect (clean_path r.path) w r)
    found :
        r.path ≢ bytes "*"
        → (r.method ≡ bytes "CONNECT") ⊎ (clean_path r.path ≡ r.path)
        → (o : Option (Str × Page)) → Longest patterns r.path o
        → Routed w r (serve_found site o w r)

  unequal : (a b : Str) → str_eq a b ≡ false → a ≢ b
  unequal a b other e = let same = (str_eq_iff a b).1 e in cc

  serve_mux-Routed : (w : Writer) (r : Request) → Routed w r (serve_mux site w r)
  unfolding serve_mux
  serve_mux-Routed w r = elim (Bool-cases (str_eq r.path (bytes "*"))) [
    | inl star ↦ rw star (starred ((str_eq_iff r.path (bytes "*")).0 star))
    | inr path ↦
        let apart = unequal r.path (bytes "*") path in
        elim (Bool-cases (str_eq r.method (bytes "CONNECT"))) [
          | inl connect ↦ rw path (
              rw connect (
                found apart (inl ((str_eq_iff r.method (bytes "CONNECT")).0 connect)) _
                  (matched-Longest r.path patterns)))
          | inr other ↦ elim (Bool-cases (str_eq (clean_path r.path) r.path)) [
            | inl clean ↦ rw path (
                rw other (
                  rw clean (
                    found apart (inr ((str_eq_iff (clean_path r.path) r.path).0 clean)) _
                      (matched-Longest r.path patterns))))
            | inr unclean ↦ rw path (
                rw other (
                  rw unclean (
                    moved apart (unequal r.method (bytes "CONNECT") other)
                      (unequal (clean_path r.path) r.path unclean))))
          ]
        ]
  ]

  module _ (order : Order) (throttled paths : List Str) (w : Writer) where
    -- How a request gets through the CORS filter: its origin is allowed and it is not OPTIONS, and
    -- then nothing but headers that allow the origin were set; or the origin is not allowed, and the
    -- response is as it was.
    pub data Passed (r : Request) : Writer → Type 0 where
      opened :
          (w' : Writer)
          → is_allowed (origin_of r) ≡ true
          → r.method ≢ bytes "OPTIONS"
          → IsOpen (origin_of r) w w'
          → Passed r w'
      as_it_came : (is_blank (origin_of r) ≡ true) ⊎ (is_allowed (origin_of r) ≡ false) → Passed r w

    -- The outcomes for a request with the address of its client.
    pub data Outcome (r : Request) : Writer → Type 0 where
      too_many_requests :
          (out : Writer)
          → IsThrottled order throttled r
          → out.sent ≡ some (429, Header.set w.header (bytes "Content-Type") json_type)
          → out.body ≡ w.body ++ throttled_json
          → Outcome r out
      sensitive :
          (out : Writer) (h : Header)
          → ¬ IsThrottled order throttled r
          → IsSensitive paths r
          → out.sent ≡ some (400, h)
          → Outcome r out
      preflight :
          (out : Writer)
          → ¬ IsThrottled order throttled r
          → ¬ IsSensitive paths r
          → r.method ≡ bytes "OPTIONS"
          → is_allowed (origin_of r) ≡ true
          → IsOpen (origin_of r) w out
          → Outcome r out
      routed :
          (w' out : Writer)
          → ¬ IsThrottled order throttled r
          → ¬ IsSensitive paths r
          → Passed r w'
          → Routed w' r out
          → Outcome r out

    abbrev mux_behind_cors : Writer → Request → Writer
    mux_behind_cors = serve_cors (serve_mux site)

    cors-Outcome :
        (r : Request) (out : Writer)
        → ¬ IsThrottled order throttled r
        → ¬ IsSensitive paths r
        → Preflight.Outcome (serve_mux site) w r out
        → Outcome r out
    cors-Outcome r _ free plain (Preflight.preflight out known options is_open) =
        preflight out free plain options known is_open
    cors-Outcome r _ free plain (Preflight.opened w' known other is_open) =
        routed w' _ free plain (opened w' known other is_open) (serve_mux-Routed w' r)
    cors-Outcome r _ free plain (Preflight.passed why) =
        routed w _ free plain (as_it_came why) (serve_mux-Routed w r)

    -- If nothing was sent before, then a request, taken with the address of its client, is answered
    -- with 429 if its session is throttled; otherwise with 400 if it is sensitive; otherwise by the
    -- CORS filter if it is the preflight of an allowed origin; and only otherwise by the mux, which
    -- answers 400 to "*", redirects a path that is not clean, and else serves the request by the
    -- longest pattern that matches, with nothing sent on the way. In every case the bucket of its session is offered to the channel.
    pub serve-Outcome :
        (r : Request) (s : Shared)
        → w.sent ≡ none
        → Outcome (real_ip r) (serve site order throttled paths w r s).1
          × ((serve site order throttled paths w r s).0 ≡ (
              if is_blank (session_id order (real_ip r))
              then s
              else offer (bucket_of (session_id order (real_ip r))) s))
    unfolding serve serve_real_ip
    serve-Outcome r s unsent =
        let r' = real_ip r in
        let (answer, offered) =
          serve_http-Answer (serve_pci mux_behind_cors paths) order throttled w r' s unsent in
        elim answer [
          | inl (full, sent, body) ↦ (too_many_requests _ full sent body, offered)
          | inr (free, is) ↦ elim (serve_pci-IsSensitive mux_behind_cors paths w r' unsent) [
            | inl (hit, (h, sent)) ↦
                (sensitive _ h free hit (ap (λ (x : Writer). x.sent) is ∙ sent), offered)
            | inr (miss, is') ↦ (
              subst (Outcome r') (sym (is ∙ is'))
                  (cors-Outcome r' _ free miss (serve_cors-Outcome (serve_mux site) w r')),
              offered,
            )
          ]
        ]
