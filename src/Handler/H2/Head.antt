-- ===== src/Handler/H2/Head.antt =====
-- The response before its status is sent: only the headers were written, and there is a content type.
use api_proxy.Prelude.{
  ◌≡◌, refl, ◌∙◌, sym, true, false, Option, none, some, List, [], ◌∷◌, inl, inr, Bool-cases,
}
use api_proxy.Text.{Str, is_blank}
use api_proxy.Http.Header
use api_proxy.Http.Header.{Header}
use api_proxy.Http.Query.{cut}
use api_proxy.Http.Header.Laws.{get-set_self}
use api_proxy.Http.Request.{content_type}
use api_proxy.Http.Writer.{Writer, set_header, add_header}
use api_proxy.Session.{Order}
use api_proxy.Trace.{TraceInfo, write_trace}
use api_proxy.Errors.{default_type}
use api_proxy.Errors.Answers.{Untouched}
use api_proxy.ControlPlane.Extractor.{Extractor}
use api_proxy.ControlPlane.Router.{Config}
use api_proxy.Handler.Pinning.Untouched.{region_pinning-Leaves}
use api_proxy.Handler.Marshal.{Ranges}
use api_proxy.Handler.H2.{
  ApiResponse, Backend, add_cut, add_line, add_lines, default_content, answer_head,
}

-- Only the headers change.
write_trace-Untouched :
    (trace : TraceInfo) (w : Writer) → w.sent ≡ none → Untouched w (write_trace trace w)
unfolding write_trace set_header
write_trace-Untouched trace w unsent = elim (Bool-cases (is_blank trace.trace_id)) [
  | inl blank ↦ rw blank (unsent, refl)
  | inr given ↦ rw given (unsent, refl)
]

add_cut-Untouched :
    (c : Str × Option Str) (w w' : Writer) → Untouched w w' → Untouched w (add_cut c w')
unfolding add_cut add_header
add_cut-Untouched (key, none) w w' h = h
add_cut-Untouched (key, some value) w w' h = h

add_line-Untouched : (line : Str) (w w' : Writer) → Untouched w w' → Untouched w (add_line line w')
unfolding add_line
add_line-Untouched line w w' h = add_cut-Untouched (cut line b':') w w' h

add_lines-Untouched :
    (lines : List Str) (w w' : Writer) → Untouched w w' → Untouched w (add_lines lines w')
unfolding add_lines
add_lines-Untouched [] w w' h = h
add_lines-Untouched (line ∷ lines) w w' h =
    add_lines-Untouched lines w (add_line line w') (add_line-Untouched line w w' h)

-- The content type of an answer: its own, or JSON.
abbrev pub mime_of : Str → Str
mime_of [] = default_type
mime_of (c ∷ s) = c ∷ s

mime_of_blank : (s : Str) → is_blank s ≡ true → mime_of s ≡ default_type
mime_of_blank [] h = refl
mime_of_blank (c ∷ s) h = cc

mime_of_given : (s : Str) → is_blank s ≡ false → mime_of s ≡ s
mime_of_given [] h = cc
mime_of_given (c ∷ s) h = refl

default_content-mime :
    (w : Writer)
    → Header.get (default_content w).header content_type
      ≡ mime_of (Header.get w.header content_type)
unfolding default_content set_header
default_content-mime w = elim (Bool-cases (is_blank (Header.get w.header content_type))) [
  | inl blank ↦
      rw blank (get-set_self w.header content_type default_type ∙ sym (mime_of_blank _ blank))
  | inr given ↦ rw given (sym (mime_of_given _ given))
]

default_content-Untouched : (w w' : Writer) → Untouched w w' → Untouched w (default_content w')
unfolding default_content set_header
default_content-Untouched w w' h =
    elim (Bool-cases (is_blank (Header.get w'.header content_type))) [
      | inl blank ↦ rw blank h
      | inr given ↦ rw given h
    ]

module _ (backend : Backend) where
  open backend use {bad_request, problem, refuses, answers}

  module _ (order session_order : Order) (ranges : Ranges) (config : Config)
      (trace : TraceInfo) where
    abbrev pub head : Writer → Extractor → ApiResponse → Writer
    head = answer_head backend order session_order ranges config trace

    -- The content type that the headers of an answer give.
    abbrev pub told_mime : Writer → ApiResponse → Str
    told_mime w rsp = Header.get (add_lines rsp.header (write_trace trace w)).header content_type

    pub answer_head-Untouched :
        (w : Writer) (e : Extractor) (rsp : ApiResponse)
        → w.sent ≡ none
        → Untouched w (head w e rsp)
    unfolding answer_head
    answer_head-Untouched w e rsp unsent =
        let typed = default_content (add_lines rsp.header (write_trace trace w)) in
        let (s, b) =
          default_content-Untouched w _
            (add_lines-Untouched rsp.header w _ (write_trace-Untouched trace w unsent)) in
        let l = region_pinning-Leaves order config typed e in (l.sent ∙ s, l.body ∙ b)

    pub answer_head-mime :
        (w : Writer) (e : Extractor) (rsp : ApiResponse)
        → Header.get (head w e rsp).header content_type ≡ mime_of (told_mime w rsp)
    unfolding answer_head
    answer_head-mime w e rsp =
        let typed = default_content (add_lines rsp.header (write_trace trace w)) in
        (region_pinning-Leaves order config typed e).mime
        ∙ default_content-mime (add_lines rsp.header (write_trace trace w))
