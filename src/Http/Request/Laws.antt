-- ===== src/Http/Request/Laws.antt =====
-- What ParseForm leaves as it is.
use api_proxy.Prelude.{◌≡◌, refl, ◌∙◌, Option, none, some, inl, inr, Bool-cases}
use api_proxy.Http.Query.{Values}
use api_proxy.Http.Request.{Request, parse_form, fill_post, fill_form, posts}

abbrev pub SameHead : Request → Request → Type 0
SameHead r s = (r.host ≡ s.host) × (r.header ≡ s.header) × (r.path ≡ s.path) × (r.method ≡ s.method)

fill_post-keeps : (f : Option Values) (r : Request) → SameHead (fill_post f r).0 r
unfolding fill_post
fill_post-keeps (some f) r = (refl, refl, refl, refl)
fill_post-keeps none r = elim (Bool-cases (posts r.method)) [
  | inl yes' ↦ rw yes' (refl, refl, refl, refl)
  | inr no' ↦ rw no' (refl, refl, refl, refl)
]

fill_form-keeps : (f : Option Values) (r : Request) → SameHead (fill_form f r).0 r
unfolding fill_form
fill_form-keeps (some f) r = (refl, refl, refl, refl)
fill_form-keeps none r = (refl, refl, refl, refl)

-- Parsing the form changes neither the request line nor the headers.
pub parse_form-keeps : (r : Request) → SameHead (parse_form r).0 r
unfolding parse_form
parse_form-keeps r =
    let (h, d, p, m) = fill_post-keeps r.post_form r in
    let s = (fill_post r.post_form r).0 in
    let (h', d', p', m') = fill_form-keeps s.form s in (h' ∙ h, d' ∙ d, p' ∙ p, m' ∙ m)
