-- ===== src/DynString/Reduce.antt =====
-- dynStringReduce and dynStringClear.
use cros.Common.{
  List, [], ap, arith, drop, if◌then◌else◌, length, ltb, map, min, refl, some, subst, take, ℕ, ◌+◌,
  ◌-◌, ◌≡◌, ◌≤◌,
}
use cros.Mem.{Block, Pointer, Run, dangling, done, live, null, splice}
use cros.Mem.Blocks.{BeginsWith-nil}
use cros.DynString.Valid.{Holds, IsText, end_text}
use cros.DynString.{DynString, clear}

-- The content without the first l and the last r characters.
unfoldable pub trim : ℕ → ℕ → List ℕ → List ℕ
trim l r chars = take (length chars - (l + r)) (drop l chars)

-- The clamps of dynStringReduce.
abbrev left_clamp : ℕ → ℕ → ℕ
left_clamp len l = if ltb len l then len else l

abbrev right_clamp : ℕ → ℕ → ℕ → ℕ
right_clamp len l r = if ltb len (l + r) then len - l else r

module _ (cur max : ℕ) (blk : Block) (chars : List ℕ) (l r : ℕ) (t : IsText blk max chars)
    (within : l + r ≤ length chars) where
  moved : Block
  moved = splice 0 (map some (trim l r chars)) blk

module _ (cur max : ℕ) (chars : List ℕ) (rem_left rem_right : ℕ) where
  -- What dynStringReduce leaves of a string with that cursor.
  abbrev pub Reduced : Run DynString → Type 0
  Reduced r =
      (d' : DynString) × (r ≡ done d')
      × Holds d' (trim rem_left rem_right chars)
      × (d'.pos_offset ≡ min (cur - rem_left) (length (trim rem_left rem_right chars)))

-- What dynStringClear leaves: no content and the cursor at 0.
abbrev pub Cleared : Run DynString → Type 0
Cleared r = (d' : DynString) × (r ≡ done d') × Holds d' [] × (d'.pos_offset ≡ 0)

clear_from :
    (len cur max : ℕ) (p : Pointer) (chars : List ℕ)
    → Holds (record { len = len; pos_offset = cur; max = max; block = p }) chars
    → Cleared (clear (record { len = len; pos_offset = cur; max = max; block = p }))
unfolding clear
clear_from len cur max null chars h = (
  record { len = len; pos_offset = cur; max = max; block = null },
  refl,
  subst (Holds _) h.storage.1 h,
  omega (arith, h.cursor, h.len_eq, ap length h.storage.1),
)
clear_from len cur max (live blk) chars h =
    let t = end_text blk max [] h.storage.0 (omega arith) (BeginsWith-nil blk) in
    (
      record { len = 0; pos_offset = 0; max = max; block = live t.0 },
      rw (clear, t.1),
      record { len_eq = refl; cursor = omega arith; storage = t.2 },
      refl,
    )
clear_from len cur max dangling chars h = absurd h.storage

-- dynStringClear empties any well-formed string and puts the cursor at 0; it keeps the storage.
pub clear_lem : (d : DynString) (chars : List ℕ) → Holds d chars → Cleared (clear d)
clear_lem d chars h = clear_from d.len d.pos_offset d.max d.block chars h
