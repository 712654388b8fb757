-- ===== src/Prelude/Keys.antt =====
-- Decidable equality of texts.
use Prim.Native.String.{String}
use mathlib.Core.Bool.{Bool, true, false}
use mathlib.Core.Path.{◌≡◌, refl}
use text.Mathlib.Text.{◌==◌}
use text.Mathlib.TextEquality.{eq_iff}

text_discrete_at : (s t : String) (b : Bool) → (s == t) ≡ b → Dec (s ≡ t)
text_discrete_at s t true e = yes ((eq_iff s t).0 e)
text_discrete_at s t false e = no (λ p. cc (e, (eq_iff s t).1 p))

-- `==` of `String`, as a decision.
unfoldable pub text_discrete : Discrete String
unfolding text_discrete_at
text_discrete s t = text_discrete_at s t (s == t) refl

text_test : Dec (◌≡◌ {A = String} "ab" "ab")
text_test = text_discrete "ab" "ab"
