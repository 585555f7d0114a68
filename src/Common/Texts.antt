-- ===== src/Common/Texts.antt =====
-- Joining texts.
use Prim.Native.String.{String, ◌++◌ as join}
use Prim.Native.String.append
use mathlib.Core.Path.{◌≡◌, ap, ◌∙◌}

-- The two texts, one after the other, as a function that computes at any text.
abbrev pub prefixed : String → String → String
prefixed String.[] s = s
prefixed (String.◌∷◌ c p) s = String.◌∷◌ c (prefixed p s)

pub join-prefixed : (p s : String) → join p s ≡ prefixed p s
join-prefixed String.[] s = append.nil s
join-prefixed (String.◌∷◌ c p) s = append.cons c p s ∙ ap (λ t. String.◌∷◌ c t) (join-prefixed p s)
