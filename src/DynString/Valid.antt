-- ===== src/DynString/Valid.antt =====
-- What a DynString stands for: a list of characters, stored with a NUL behind them.
use cros.Common.{
  List, [], ap, append_assoc, arith, length, length-append, map-append, minus_one, pos, refl, some,
  ℕ, ℤ, ◌++◌, ◌+◌, ◌∙◌, ◌∷◌, ◌≡◌, ◌≤◌, ◌⊎◌,
}
use cros.Mem.{Block, Pointer, Run, dangling, done, live, null, splice, write}
use cros.Mem.Blocks.{BeginsWith, BeginsWith-append, BeginsWith-length, length-splice, write_within}
use cros.DynString.{DynString, init}

-- A block for max characters and a NUL that holds these characters and a NUL.
abbrev pub IsText : Block → ℕ → List ℕ → Type 0
IsText blk max chars = (length blk ≡ max + 1) × BeginsWith blk (chars ++ (0 ∷ []))

abbrev pub Storage : Pointer → ℕ → List ℕ → Type 0
Storage null max chars = (max ≡ 0) × (chars ≡ [])
Storage (live blk) max chars = IsText blk max chars
Storage dangling max chars = ⊥

-- The string is well formed, its content is these characters and the cursor is inside.
pub record Holds (d : DynString) (chars : List ℕ) : Type 0 where
  pub len_eq : d.len ≡ length chars
  pub cursor : d.pos_offset ≤ d.len
  pub storage : Storage d.block d.max chars

pub init-Holds : Holds init []
unfolding init
init-Holds = record { len_eq = refl; cursor = omega arith; storage = (refl, refl) }

pub IsText-fits :
    (blk : Block) (max : ℕ) (chars : List ℕ) → IsText blk max chars → length chars ≤ max
IsText-fits blk max chars t =
    omega (arith, t.0, BeginsWith-length t.1, length-append {0} chars (0 ∷ []))

pub Storage-fits :
    (p : Pointer) (max : ℕ) (chars : List ℕ) → Storage p max chars → length chars ≤ max
Storage-fits null max chars s = omega (arith, ap length s.1)
Storage-fits (live blk) max chars s = IsText-fits blk max chars s
Storage-fits dangling max chars s = absurd s

-- Without the NUL.
pub IsText-begins :
    (blk : Block) (max : ℕ) (chars : List ℕ) → IsText blk max chars → BeginsWith blk chars
IsText-begins blk max chars t = record {
  rest = some 0 ∷ t.1.rest;
  same = t.1.same ∙ simp (map-append, append_assoc);
}

-- A NUL written behind the characters makes a text of them.
pub end_text :
    (copied : Block) (max : ℕ) (chars : List ℕ)
    → length copied ≡ max + 1
    → length chars ≤ max
    → BeginsWith copied chars
    → (ended : Block) × (write copied (length chars) (0 ∷ []) ≡ done ended) × IsText ended max chars
end_text copied max chars len fits b = (
  splice (length chars) (some 0 ∷ []) copied,
  write_within copied (length chars) (0 ∷ []) (omega (arith, len)),
  (
    length-splice (length chars) (some 0 ∷ []) copied (omega (arith, len)) ∙ len,
    BeginsWith-append (0 ∷ []) b,
  ),
)

-- The outcome of a call that may change the content: the new length, or -1 with the content as it
-- was. The cursor stays.
pub record Edited (cursor : ℕ) (chars chars' : List ℕ) (r : Run (ℤ × DynString)) : Type 0 where
  pub ret : ℤ
  pub d' : DynString
  pub returns : r ≡ done (ret, d')
  pub same_cursor : d'.pos_offset ≡ cursor
  pub outcome :
      ((ret ≡ pos (length chars')) × Holds d' chars') ⊎ ((ret ≡ minus_one) × Holds d' chars)
