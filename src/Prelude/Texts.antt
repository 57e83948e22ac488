-- ===== src/Prelude/Texts.antt =====
-- Texts with a common prefix.
use Prim.Native.String.{String, len, slice}
use Prim.Native.String
use Prim.Native.Nat.{◌+◌}
use mathlib.Core.Path.{◌≡◌, sym, ap, ◌∙◌}
use native.Mathlib.Omega.{arith}
use text.Mathlib.Text.{◌==◌ as str_eq}
use text.Mathlib.TextEquality.{eq_iff}
use text.Mathlib.TextPositions.{len-append, slice-append_right}

-- `p + s`
abbrev pub prefixed : String → String → String
prefixed p s = String.◌++◌ p s

prefixed_cancel : (p a b : String) → prefixed p a ≡ prefixed p b → a ≡ b
prefixed_cancel p a b h =
    let same : len a ≡ len b = omega (arith, ap len h, len-append p a, len-append p b) in
    sym (slice-append_right p a)
    ∙ ap (λ t. slice t (len p) (len p + len a)) h
    ∙ ap (λ n. slice (prefixed p b) (len p) (len p + n)) same
    ∙ slice-append_right p b

pub str_eq-prefixed : (p a b : String) → str_eq (prefixed p a) (prefixed p b) ≡ str_eq a b
str_eq-prefixed p a b =
    ground (arith, eq_iff a b, eq_iff (prefixed p a) (prefixed p b), prefixed_cancel p a b)
