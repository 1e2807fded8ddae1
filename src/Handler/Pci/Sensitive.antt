-- ===== src/Handler/Pci/Sensitive.antt =====
-- Sensitive requests are refused.
use api_proxy.Prelude.{
  ◌≡◌, ◌≢◌, refl, true, false, some, none, List, [], ◌∷◌, Bool-cases, inl, inr, ◌⊎◌, arith,
}
use api_proxy.Text.{Str, bytes, str_eq}
use api_proxy.Text.Laws.{str_eq_iff}
use api_proxy.Http.Header
use api_proxy.Http.Header.{Header}
use api_proxy.Http.Request.{Request}
use api_proxy.Http.Writer.{Writer, set_header}
use api_proxy.Http.Writer.Laws.{sent-write, sent-write_header}
use api_proxy.StatusMonitor.Response.{http_error}
use api_proxy.Handler.Pci.{
  method_and_path, is_listed, is_sensitive_request, sensitive_text, serve_pci,
}

abbrev pub IsIn : Str → List Str → Type 0
IsIn s [] = ⊥
IsIn s (p ∷ ps) = (p ≡ s) ⊎ IsIn s ps

pub is_listed-IsIn : (ps : List Str) (s : Str) → is_listed ps s ≡ true → IsIn s ps
unfolding is_listed
is_listed-IsIn [] s h = cc
is_listed-IsIn (p ∷ ps) s h = elim (Bool-cases (str_eq p s)) [
  | inl same ↦ inl ((str_eq_iff p s).0 same)
  | inr other ↦ inr (is_listed-IsIn ps s (ground (arith, h, other)))
]

is_listed_complete : (ps : List Str) (s : Str) → IsIn s ps → is_listed ps s ≡ true
unfolding is_listed
is_listed_complete [] s i = elim i [ ]
is_listed_complete (p ∷ ps) s (inl same) = rw ((str_eq_iff p s).1 same) refl
is_listed_complete (p ∷ ps) s (inr i) =
    let later = is_listed_complete ps s i in ground (arith, later)

-- The method and the path are listed, and the request does not come from the secure API.
abbrev pub IsSensitive : List Str → Request → Type 0
IsSensitive paths r =
    IsIn (method_and_path r) paths × (Header.get r.header (bytes "X-Encrypted") ≢ bytes "true")

sensitive :
    (paths : List Str) (r : Request) → is_sensitive_request paths r ≡ true → IsSensitive paths r
unfolding is_sensitive_request
sensitive paths r h =
    let listed : is_listed paths (method_and_path r) ≡ true = ground (arith, h) in
    let plain : str_eq (Header.get r.header (bytes "X-Encrypted")) (bytes "true") ≡ false =
      ground (arith, h) in
    (
      is_listed-IsIn paths _ listed,
      λ e.
          let same = (str_eq_iff (Header.get r.header (bytes "X-Encrypted")) (bytes "true")).1 e in
          cc,
    )

plain_str_eq : (a b : Str) → a ≢ b → str_eq a b ≡ false
plain_str_eq a b h = elim (Bool-cases (str_eq a b)) [
  | inl same ↦ absurd (h ((str_eq_iff a b).0 same))
  | inr other ↦ other
]

not-IsSensitive :
    (paths : List Str) (r : Request) → is_sensitive_request paths r ≡ false → ¬ IsSensitive paths r
unfolding is_sensitive_request
not-IsSensitive paths r h (i, plain) =
    let listed = is_listed_complete paths (method_and_path r) i in
    let other = plain_str_eq (Header.get r.header (bytes "X-Encrypted")) (bytes "true") plain in
    ground (arith, h, listed, other)

refused :
    (w : Writer)
    → w.sent ≡ none
    → (h : Header) × ((http_error w sensitive_text 400).sent ≡ some (400, h))
unfolding http_error set_header
refused w unsent =
    let plain =
      set_header (set_header w (bytes "Content-Type") (bytes "text/plain; charset=utf-8"))
        (bytes "X-Content-Type-Options") (bytes "nosniff") in
    (plain.header, sent-write _ _ (sent-write_header plain 400 unsent))

-- If nothing was sent before, a request whose method and path are listed and that does not come from
-- the secure API is answered with 400 and goes no further, and every other request goes on as it came.
pub serve_pci-IsSensitive :
    (next : Writer → Request → Writer) (paths : List Str) (w : Writer) (r : Request)
    → w.sent ≡ none
    → (IsSensitive paths r × ((h : Header) × ((serve_pci next paths w r).sent ≡ some (400, h))))
      ⊎ ((¬ IsSensitive paths r) × (serve_pci next paths w r ≡ next w r))
unfolding serve_pci
serve_pci-IsSensitive next paths w r unsent = elim (Bool-cases (is_sensitive_request paths r)) [
  | inl hit ↦ inl (sensitive paths r hit, rw hit (refused w unsent))
  | inr miss ↦ inr (not-IsSensitive paths r miss, rw miss refl)
]
