-- ===== src/Base/Distinct.antt =====
-- Lists of texts without repetition, as a set of the texts seen so far finds them.
use synxed_solana_protocol.Base.Lists.{All}
use synxed_solana_protocol.Base.Text.{String, has, ===_iff}
use mathlib.Core.Path.{◌≡◌}
use mathlib.Core.Logic.{◌≢◌}
use mathlib.Core.Bool.{false}
use mathlib.Core.List.{List, [], ◌∷◌}
use native.Mathlib.Omega.{arith}

-- Every text is new: it differs from those that follow it.
abbrev pub IsDistinct : List String → Type 0
IsDistinct [] = Unit
IsDistinct (s ∷ ss) = All (λ t. s ≢ t) ss × IsDistinct ss

pub has_not : (seen : List String) (s : String) → has seen s ≡ false → All (λ t. t ≢ s) seen
has_not [] s h = tt
has_not (t ∷ ts) s h = (ground (arith, ===_iff t s), has_not ts s (ground arith))

-- No label is among those already seen.
abbrev pub AllNew : List String → List String → Type 0
AllNew seen [] = Unit
AllNew seen (s ∷ ss) = All (λ t. t ≢ s) seen × AllNew seen ss

pub AllNew-head :
    (x : String) (seen ss : List String)
    → AllNew (x ∷ seen) ss
    → All (λ t. x ≢ t) ss × AllNew seen ss
AllNew-head x seen [] h = (tt, tt)
AllNew-head x seen (s ∷ ss) h = let (a, b) = AllNew-head x seen ss h.1 in ((h.0.0, a), (h.0.1, b))
