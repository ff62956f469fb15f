-- ===== src/Prelude/Split.antt =====
-- strings.Split and strings.Cut at one separator, and what they make of a text that is joined.
use Prim.Native.Nat.{ℕ}
use mathlib.Core.Path.{◌≡◌, refl}
use mathlib.Core.Logic.{◌≢◌}
use mathlib.Core.Option.{Option, none, some}
use mathlib.Core.List.{List, [], ◌∷◌, ◌++◌}
use native.Mathlib.Omega.{arith}
use flowguard_lite.Prelude.Tests.{eqb, if◌then◌else◌}
use flowguard_lite.Prelude.Lists.{All}
use flowguard_lite.Prelude.Text.{Text}

abbrev pub Lacks : ℕ → Text → Type 0
Lacks sep = All (λ c. c ≢ sep)

abbrev pub cons_head : ℕ → List Text → List Text
cons_head c [] = []
cons_head c (s ∷ ss) = (c ∷ s) ∷ ss

-- `strings.Split(s, sep)`.
unfoldable pub split : ℕ → Text → List Text
split sep [] = [] ∷ []
split sep (c ∷ s) = let rest = split sep s in if eqb c sep then [] ∷ rest else cons_head c rest

abbrev pub cut_head : ℕ → Option (Text × Text) → Option (Text × Text)
cut_head c none = none
cut_head c (some (s, t)) = some (c ∷ s, t)

-- `strings.Cut(s, sep)`: what stands before and after the first separator, if there is one.
unfoldable pub cut : ℕ → Text → Option (Text × Text)
cut sep [] = none
cut sep (c ∷ s) = let rest = cut sep s in if eqb c sep then some ([], s) else cut_head c rest

pub split-append : (sep : ℕ) (s t : Text) → Lacks sep s → split sep (s ++ sep ∷ t) ≡ s ∷ split sep t
unfolding split
split-append sep [] t h = ground arith
split-append sep (c ∷ s) t h = ground (arith, split-append sep s t h.1, h.0)

pub split_whole : (sep : ℕ) (s : Text) → Lacks sep s → split sep s ≡ s ∷ []
unfolding split
split_whole sep [] h = refl
split_whole sep (c ∷ s) h = ground (arith, split_whole sep s h.1, h.0)

pub cut-append : (sep : ℕ) (s t : Text) → Lacks sep s → cut sep (s ++ sep ∷ t) ≡ some (s, t)
unfolding cut
cut-append sep [] t h = ground arith
cut-append sep (c ∷ s) t h = ground (arith, cut-append sep s t h.1, h.0)
