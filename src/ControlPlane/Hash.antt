-- ===== src/ControlPlane/Hash.antt =====
-- hash/fnv, as the sampling and the rule IDs use it.
use api_proxy.Prelude.{ℕ, ◌*◌, ◌%◌, ◌^◌, bit_xor, [], ◌∷◌, ◌≡◌, refl}
use api_proxy.Text.{Str, bytes}

fnv64_from : ℕ → Str → ℕ
fnv64_from h [] = h
fnv64_from h (c ∷ s) = fnv64_from (bit_xor (h * 1099511628211 % 2 ^ 64) c) s

-- FNV-1 with 64 bits: `fnv.New64`.
unfoldable pub fnv64 : Str → ℕ
unfolding fnv64_from
fnv64 s = fnv64_from 14695981039346656037 s

fnv32a_from : ℕ → Str → ℕ
fnv32a_from h [] = h
fnv32a_from h (c ∷ s) = fnv32a_from (bit_xor h c * 16777619 % 2 ^ 32) s

-- FNV-1a with 32 bits: `fnv.New32a`.
unfoldable pub fnv32a : Str → ℕ
unfolding fnv32a_from
fnv32a s = fnv32a_from 2166136261 s

-- Test vectors of the hash's authors.
fnv64_test : fnv64 (bytes "a") ≡ 0xaf63bd4c8601b7be
unfolding fnv64 bytes
fnv64_test = refl

fnv32a_test : fnv32a (bytes "foobar") ≡ 0xbf9cf968
unfolding fnv32a bytes
fnv32a_test = refl
