-- ===== src/DynString/Chars.antt =====
-- dynStringPushBackChar.
use cros.Common.{
  Bool-cases, List, [], ap, arith, inl, inr, int_max, length, ltb, ltb_false→le, none, refl,
  replicate, some, ℕ, ◌*◌, ◌++◌, ◌+◌, ◌∙◌, ◌∷◌, ◌≡◌, ◌≤◌,
}
use cros.Mem.{Block, Heap, Pointer, dangling, live, null, resize, splice}
use cros.Mem.Blocks.{
  BeginsWith, BeginsWith-nil, BeginsWith-resize, length-resize, length-splice, write_within,
}
use cros.DynString.{DynString, append_char, push_back_char, push_char_live}
use cros.DynString.Valid.{Edited, Holds, IsText, IsText-begins, IsText-fits}
use cros.DynString.Push.{Edited-failed, int_fits, malloc-cases, place-Edited, regrow-Edited}

module _ (heap : Heap) (len cur max c : ℕ) (chars : List ℕ) (len_eq : len ≡ length chars)
    (inside : cur ≤ len) (fits : 2 * max + 257 ≤ int_max) where
  abbrev at : ℕ → Pointer → DynString
  at m p = record { len = len; pos_offset = cur; max = m; block = p }

  append_char-Edited :
      (m : ℕ) (blk : Block) (p : Pointer)
      → length blk ≡ m + 1
      → m ≤ int_max
      → BeginsWith blk chars
      → len + 1 ≤ m
      → Edited cur chars (chars ++ (c ∷ [])) (append_char (at m p) blk c)
  unfolding append_char
  append_char-Edited m blk p size small b room =
      rw (append_char, len_eq)
        (place-Edited cur m blk chars size b (omega (arith, len_eq)) small (c ∷ [])
          (omega (arith, len_eq)) 1 refl)

  push_char_live-Edited :
      (blk : Block)
      → IsText blk max chars
      → Edited cur chars (chars ++ (c ∷ [])) (push_char_live heap (at max (live blk)) blk c)
  unfolding push_char_live
  push_char_live-Edited blk t = elim (Bool-cases (ltb max (len + 1))) [
    | inl more ↦
        rw (push_char_live, int_fits (len + 1) (omega (arith, IsText-fits blk max chars t)), more)
          (regrow-Edited heap (at max (live blk)) blk chars (chars ++ (c ∷ [])) (2 * max + 2) _
            (record { len_eq = len_eq; cursor = inside; storage = t }) (omega arith) (omega arith)
            (append_char-Edited (2 * max + 1) (resize (2 * max + 2) blk)
              (live (resize (2 * max + 2) blk)) (length-resize (2 * max + 2) blk ∙ omega arith)
              (omega arith)
              (BeginsWith-resize (2 * max + 2) (omega (arith, t.0)) (IsText-begins blk max chars t))
              (omega (arith, IsText-fits blk max chars t))))
    | inr room ↦
        rw (push_char_live, int_fits (len + 1) (omega (arith, IsText-fits blk max chars t)), room)
          (append_char-Edited max blk (live blk) t.0 (omega arith) (IsText-begins blk max chars t)
            (omega (arith, ltb_false→le max (len + 1) room)))
  ]

-- The first NUL that a new block gets.
first_nul : Block
first_nul = splice 0 (some 0 ∷ []) (replicate 258 none)

length-first_nul : length first_nul ≡ 257 + 1
unfolding first_nul
length-first_nul = length-splice 0 (some 0 ∷ []) (replicate 258 none) (omega arith)

push_char_from :
    (heap : Heap) (len cur max c : ℕ) (p : Pointer) (chars : List ℕ)
    → Holds (record { len = len; pos_offset = cur; max = max; block = p }) chars
    → 2 * max + 257 ≤ int_max
    → Edited cur chars
        (chars ++ (c ∷ []))
        (push_back_char heap (record { len = len; pos_offset = cur; max = max; block = p }) c)
unfolding push_back_char first_nul
push_char_from heap len cur max c null chars h fits = elim (malloc-cases heap 258) [
  | inl no_memory ↦
      rw (push_back_char, no_memory)
        (Edited-failed (record { len = len; pos_offset = cur; max = max; block = null }) chars
          (chars ++ (c ∷ [])) h)
  | inr got ↦
      rw
        (
          push_back_char,
          got,
          write_within (replicate 258 none) 0 (0 ∷ []) (omega arith),
          h.storage.1,
        )
        (append_char-Edited heap 0 cur max c [] refl
          (omega (arith, h.cursor, h.len_eq, ap length h.storage.1)) fits 257 first_nul
          (live first_nul) length-first_nul (omega arith) (BeginsWith-nil first_nul) (omega arith))
]
push_char_from heap len cur max c (live blk) chars h fits =
    push_char_live-Edited heap len cur max c chars h.len_eq h.cursor fits blk h.storage
push_char_from heap len cur max c dangling chars h fits = absurd h.storage

-- dynStringPushBackChar on a well-formed string whose capacity stays below INT_MAX: it appends the
-- character and returns the new length, or returns -1 with the content as it was. The cursor stays.
pub push_back_char-Edited :
    (heap : Heap) (d : DynString) (chars : List ℕ) (c : ℕ)
    → Holds d chars
    → 2 * d.max + 257 ≤ int_max
    → Edited d.pos_offset chars (chars ++ (c ∷ [])) (push_back_char heap d c)
push_back_char-Edited heap d chars c h fits =
    push_char_from heap d.len d.pos_offset d.max c d.block chars h fits
