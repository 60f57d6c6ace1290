-- ===== src/Common/Scan.antt =====
-- Loops that walk over a text until something is found at a place, as the parsers of XML do.
use mathlib.Core.List.{List, [], ◌∷◌, ◌++◌}
use mathlib.Core.Option.{Option, none, some}
use mathlib.Core.Path.{◌≡◌, refl}
use mathlib.Core.Logic.{◌≢◌}
use Prim.Native.Nat.{ℕ, suc, ◌+◌}
use native.Mathlib.Omega.{arith}
use cros.Common.Lists.{drop, length}
use cros.Common.Tests.{if◌then◌else◌}
use cros.Common.Text.{starts_with}

infixr 20 ◌or_else◌
abbrev pub ◌or_else◌ {ℓ} : {A : Type ℓ} → Option A → Option A → Option A
none or_else b = b
some a or_else b = some a

-- `k` of what stands behind a tag, if the text starts with the tag.
abbrev pub tagged {ℓ} : {A : Type ℓ} → List ℕ → (List ℕ → A) → List ℕ → Option A
tagged tag k text = if starts_with tag text then some (k (drop (length tag) text)) else none

abbrev pub later_by_one {ℓ} : {A : Type ℓ} → Option (ℕ × A) → Option (ℕ × A)
later_by_one none = none
later_by_one (some (n, a)) = some (suc n, a)

-- The first place where `here` finds something: the number of characters before it, and the find.
unfoldable pub scan {ℓ} : {A : Type ℓ} → (List ℕ → Option A) → List ℕ → Option (ℕ × A)
scan here [] = none
scan here (c ∷ cs) = elim (here (c ∷ cs)) [
  | some a ↦ some (0, a)
  | none ↦ later_by_one (scan here cs)
]

pub scan-hit {ℓ} :
    {A : Type ℓ} (here : List ℕ → Option A) (c : ℕ) (cs : List ℕ) (a : A)
    → here (c ∷ cs) ≡ some a
    → scan here (c ∷ cs) ≡ some (0, a)
unfolding scan
scan-hit here c cs a e = rw (scan, e) refl

abbrev pub later_by {ℓ} : {A : Type ℓ} → ℕ → Option (ℕ × A) → Option (ℕ × A)
later_by n none = none
later_by n (some (m, a)) = some (n + m, a)

-- No character of the text is a `<`.
abbrev pub IsPlain : List ℕ → Type 0
IsPlain [] = Unit {0}
IsPlain (c ∷ cs) = (c ≢ b'<') × IsPlain cs

-- A test that finds something only at a `<`.
abbrev pub AtTags {ℓ} : {A : Type ℓ} → (List ℕ → Option A) → Type ℓ
AtTags here = (c : ℕ) (cs : List ℕ) → c ≢ b'<' → here (c ∷ cs) ≡ none

later_by_lem {ℓ} :
    {A : Type ℓ} (n : ℕ) (r : Option (ℕ × A)) → later_by_one (later_by n r) ≡ later_by (suc n) r
later_by_lem n none = refl
later_by_lem n (some (m, a)) = ground arith

later_by_zero {ℓ} : {A : Type ℓ} (r : Option (ℕ × A)) → r ≡ later_by 0 r
later_by_zero none = refl
later_by_zero (some (m, a)) = ground arith

-- A loop that looks for tags passes over a plain text.
pub scan-plain {ℓ} :
    {A : Type ℓ} (here : List ℕ → Option A) (t rest : List ℕ)
    → AtTags here
    → IsPlain t
    → scan here (t ++ rest) ≡ later_by (length t) (scan here rest)
unfolding scan
scan-plain here [] rest tags plain = later_by_zero (scan here rest)
scan-plain here (c ∷ cs) rest tags plain =
    rw (scan, tags c (cs ++ rest) (plain.0), scan-plain here cs rest tags (plain.1))
      (later_by_lem (length cs) (scan here rest))
