-- ===== src/Handler/Rpc/Access.antt =====
-- Which calls the RPC entry point makes.
use api_proxy.Prelude.{
  ◌≡◌, ◌≢◌, refl, true, false, Option, none, some, [], ◌∷◌, Bool-cases, Option-cases, inl, inr, ◌⊎◌,
  arith,
}
use api_proxy.Text.{Str, bytes, str_eq, is_blank, has_prefix}
use api_proxy.Text.Laws.{str_eq_iff}
use api_proxy.Http.Header
use api_proxy.Http.Query
use api_proxy.Http.Request.{Request, query, parse_form, form_values, content_type}
use api_proxy.Http.Writer.{Writer}
use api_proxy.Session.{Order, session_id, session_id_key, ◌or_else◌}
use api_proxy.Trace.{TraceInfo}
use api_proxy.Errors.{ApiError, protobuf_type, default_type}
use api_proxy.Handler.Rpc.{
  Call, Result, ok, failed, Platform, Target, kernel_prefix, fix_type, check_target, check_read,
  read_proto, read_parsed, http_to_h2_request, authorised_for, refuse, finish, place, guarded,
  targeted, rpc_handler, post_required,
}

module _ (platform : Platform) where
  open platform use {refuses, is_admin, answers}

  -- A target that passed the guards.
  record IsChecked (t : Target) : Type 0 where
    service : t.service ≢ []
    endpoint : t.endpoint ≢ []
    accepted : refuses t.is_protobuf t.service t.endpoint t.payload ≡ none

  -- An error, or a target that passed the guards.
  data Checked : Result Target → Type 0 where
    is_error : (err : ApiError) → Checked (failed err)
    is_target : (t : Target) → IsChecked t → Checked (ok t)

  given : (s : Str) → is_blank s ≡ false → s ≢ []
  given [] h = cc
  given (c ∷ s) h = λ e. cc

  check_target-Checked : (t : Target) → Checked (check_target platform t)
  unfolding check_target
  check_target-Checked t = elim (Bool-cases (is_blank t.service)) [
    | inl no_service ↦ rw no_service (is_error _)
    | inr service ↦ elim (Bool-cases (is_blank t.endpoint)) [
      | inl no_endpoint ↦ rw service (rw no_endpoint (is_error _))
      | inr endpoint ↦ elim (Option-cases (refuses t.is_protobuf t.service t.endpoint t.payload)) [
        | inl accepted ↦ rw service (
            rw endpoint (
              rw accepted (
                is_target t (record {
                  service = given _ service;
                  endpoint = given _ endpoint;
                  accepted = accepted;
                }))))
        | inr (text, refused) ↦ rw service (rw endpoint (rw refused (is_error _)))
      ]
    ]
  ]

  check_read-Checked : (x : Request × Result Target) → Checked (check_read platform x).1
  unfolding check_read
  check_read-Checked (r, ok t) = check_target-Checked t
  check_read-Checked (r, failed err) = is_error err

  http_to_h2_request-Checked : (r : Request) → Checked (http_to_h2_request platform r).1
  unfolding http_to_h2_request
  http_to_h2_request-Checked r =
      elim (Bool-cases (str_eq (Header.get r.header content_type) protobuf_type)) [
        | inl proto ↦ rw proto (check_read-Checked (read_proto platform r))
        | inr form ↦ rw form (check_read-Checked (read_parsed platform (parse_form r)))
      ]

  -- The session that the access check asks about.
  abbrev pub asked_session : Request → Str
  asked_session r =
      Query.get (query r) session_id_key or_else Query.get (form_values r) session_id_key

  -- A call that may be made for a request, which the guards left as `r`.
  pub record IsAllowed (order : Order) (trace : TraceInfo) (r : Request) (c : Call) : Type 0 where
    pub service : c.service ≢ []
    pub endpoint : c.endpoint ≢ []
    pub accepted : refuses c.is_protobuf c.service c.endpoint c.payload ≡ none
    pub access : has_prefix c.service kernel_prefix ≡ true → is_admin (asked_session r) ≡ true
    pub session : c.session ≡ session_id order r
    pub trace_kept : c.trace ≡ trace

  -- Either an error is answered and no call is made, or the call is allowed.
  pub data Outcome (order : Order) (trace : TraceInfo) (w : Writer) (r : Request)
      : Writer × Option Call → Type 0 where
    refused :
        (err : ApiError) (mime : Str)
        → Outcome order trace w r (refuse platform w err mime trace, none)
    called :
        (c : Call) (mime : Str)
        → IsAllowed order trace r c
        → Outcome order trace w r (finish platform w mime trace (answers c), some c)

  module _ (order : Order) (trace : TraceInfo) (w : Writer) (mime : Str) where
    place-Outcome :
        (r : Request) (t : Target)
        → IsChecked t
        → (has_prefix t.service kernel_prefix ≡ true → is_admin (asked_session r) ≡ true)
        → Outcome order trace w r (place platform order trace w mime r t)
    unfolding place
    place-Outcome r t checked access = called _ mime (record {
      service = checked.service;
      endpoint = checked.endpoint;
      accepted = checked.accepted;
      access = access;
      session = refl;
      trace_kept = refl;
    })

    guarded-Outcome :
        (r : Request) (t : Target) (o : Option ApiError)
        → IsChecked t
        → (o ≡ none → has_prefix t.service kernel_prefix ≡ true → is_admin (asked_session r) ≡ true)
        → Outcome order trace w r (guarded platform order trace w mime r t o)
    unfolding guarded
    guarded-Outcome r t (some err) checked access = refused err mime
    guarded-Outcome r t none checked access = place-Outcome r t checked (access refl)

    authorised_for-access :
        (r : Request) (service : Str)
        → authorised_for platform r service ≡ none
        → has_prefix service kernel_prefix ≡ true
        → is_admin (asked_session r) ≡ true
    unfolding authorised_for
    authorised_for-access r service free kernel = elim (Bool-cases (is_admin (asked_session r))) [
      | inl admin ↦ admin
      | inr other ↦ ground (arith, kernel, other, free)
    ]

    targeted-Outcome :
        (r : Request) (x : Result Target)
        → Checked x
        → Outcome order trace w r (targeted platform order trace w mime (r, x))
    unfolding targeted
    targeted-Outcome r (failed err) c = refused err mime
    targeted-Outcome r (ok t) (is_target _ checked) =
        guarded-Outcome r t (authorised_for platform r t.service) checked
          (λ free kernel. authorised_for-access r t.service free kernel)

  -- A request to the RPC entry point is answered with an error and no call is made, or it is POSTed
  -- and one call is made, whose service and endpoint are named and accepted by the client library, in
  -- the session of the request and with its trace, and only for an administrator if the service is
  -- one of the kernel's.
  pub rpc_handler-Outcome :
      (order : Order) (trace : TraceInfo) (w : Writer) (r : Request)
      → ((r.method ≢ bytes "POST")
          × (rpc_handler platform order trace w r
              ≡ (refuse platform w post_required default_type trace, none)))
        ⊎ ((r.method ≡ bytes "POST")
            × Outcome order trace w
                (http_to_h2_request platform (fix_type r)).0
                (rpc_handler platform order trace w r))
  unfolding rpc_handler
  rpc_handler-Outcome order trace w r = elim (Bool-cases (str_eq r.method (bytes "POST"))) [
    | inl post ↦ inr (
      (str_eq_iff r.method (bytes "POST")).0 post,
      rw post (targeted-Outcome order trace w _ _ _ (http_to_h2_request-Checked (fix_type r))),
    )
    | inr other ↦ inl (not_post other, rw other refl)
  ]
    where
      not_post : str_eq r.method (bytes "POST") ≡ false → r.method ≢ bytes "POST"
      not_post other e = let same = (str_eq_iff r.method (bytes "POST")).1 e in cc
