-- ===== src/Handler/Endpoint/Paths.antt =====
-- A clean path is read back.
use api_proxy.Prelude.{◌≡◌, refl, ap, sym, ◌∙◌, Bool, true, false, ◌==◌, List, [], ◌∷◌, ◌++◌, All}
use mathlib.Core.List.{append_assoc}
use api_proxy.Text.{Str, bytes, str_eq, is_blank, split, join, trim_prefix, has_prefix, cons_head}
use api_proxy.Handler.Endpoint.{
  slash, without_last, last_or, clean_step, clean_all, clean, is_rooted, service_prefix,
  path_to_endpoint,
}

-- An element of a path that is neither blank nor a dot nor two, and holds no slash.
pub record IsPlain (s : Str) : Type 0 where
  pub given : is_blank s ≡ false
  pub no_dot : str_eq s (bytes ".") ≡ false
  pub no_dots : str_eq s (bytes "..") ≡ false
  pub no_slash : All (λ c. (c == b'/') ≡ false) s

split_plain : (s : Str) → All (λ c. (c == b'/') ≡ false) s → split s b'/' ≡ s ∷ []
unfolding split cons_head
split_plain [] h = refl
split_plain (c ∷ s) (other, h) = rw (split_plain s h, split) (rw other refl)

split-append :
    (s t : Str) → All (λ c. (c == b'/') ≡ false) s → split (s ++ b'/' ∷ t) b'/' ≡ s ∷ split t b'/'
unfolding split cons_head
split-append [] t h = refl
split-append (c ∷ s) t (other, h) = rw (split-append s t h, split) (rw other refl)

split-join :
    (s : Str) (ss : List Str) → All IsPlain (s ∷ ss) → split (join (s ∷ ss) slash) b'/' ≡ s ∷ ss
unfolding join
split-join s [] (p, h) = split_plain s p.no_slash
split-join s (t ∷ ss) (p, h) =
    split-append s (join (t ∷ ss) slash) p.no_slash ∙ ap (λ x. s ∷ x) (split-join t ss h)

clean_all-append :
    (rooted : Bool) (kept ss : List Str) → All IsPlain ss → clean_all rooted kept ss ≡ kept ++ ss
unfolding clean_all clean_step
clean_all-append rooted kept [] h = sym (append_blank kept)
  where
    append_blank : (xs : List Str) → xs ++ [] ≡ xs
    append_blank [] = refl
    append_blank (x ∷ xs) = ap (λ t. x ∷ t) (append_blank xs)
clean_all-append rooted kept (s ∷ ss) (p, h) = rw p.given (
    rw p.no_dot (
      rw p.no_dots (clean_all-append rooted (kept ++ s ∷ []) ss h ∙ append_assoc kept (s ∷ []) ss)))

clean-join :
    (s : Str) (ss : List Str)
    → All IsPlain (s ∷ ss)
    → clean (slash ++ join (s ∷ ss) slash) ≡ slash ++ join (s ∷ ss) slash
unfolding clean is_rooted str_eq
clean-join s ss h =
    ap (λ kept. slash ++ join kept slash)
      (ap (clean_all true [])
          (split-append [] (join (s ∷ ss) slash) tt ∙ ap (λ x. [] ∷ x) (split-join s ss h))
        ∙ skipped)
  where
    skipped : clean_all true [] ([] ∷ s ∷ ss) ≡ s ∷ ss
    skipped = unfold clean_all clean_step in clean_all-append true [] (s ∷ ss) h

trim_slash : (t : Str) → trim_prefix (slash ++ t) slash ≡ t
unfolding trim_prefix has_prefix
trim_slash t = refl

-- The path of plain elements (neither blank nor a dot nor two, and without a slash) stands for the
-- service that they name but for the last, with dots between them, and for the endpoint that the last
-- one names.
pub path_to_endpoint-join :
    (s : Str) (ss : List Str)
    → All IsPlain (s ∷ ss)
    → path_to_endpoint (slash ++ join (s ∷ ss) slash)
      ≡ (service_prefix ++ join (without_last (s ∷ ss)) (b'.' ∷ []), last_or [] (s ∷ ss))
unfolding path_to_endpoint
path_to_endpoint-join s ss h =
    ap (λ parts. (service_prefix ++ join (without_last parts) (b'.' ∷ []), last_or [] parts))
      (ap (λ q. split (trim_prefix q slash) b'/') (clean-join s ss h)
        ∙ (ap (λ q. split q b'/') (trim_slash (join (s ∷ ss) slash)) ∙ split-join s ss h))
