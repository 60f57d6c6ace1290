-- ===== src/DynString/Push.antt =====
-- dynStringPushBackStrN and dynStringPushBackStr.
use cros.Common.{
  Bool-cases, List, [], ap, arith, false, inl, inr, int_max, length, length-append, length-map,
  length-replicate, le→leb, ltb, ltb_false→le, map, minus_one, none, pos, refl, replicate, some,
  subst, sym, take, take-all, ℕ, ℤ, ◌*◌, ◌++◌, ◌+◌, ◌<◌, ◌==◌, ◌∙◌, ◌∷◌, ◌≡◌, ◌≤◌, ◌⊎◌,
}
use cros.Mem.{
  Block, Cell, Heap, Pointer, Run, dangling, done, int, live, malloc, null, realloc, resize, splice,
  write, ◌>>=◌,
}
use cros.Mem.Blocks.{
  BeginsWith, BeginsWith-append, BeginsWith-nil, BeginsWith-resize, length-resize, length-splice,
  length-take_le, read_buf_within, write_within,
}
use cros.DynString.{DynString, append, push_back_str, push_back_str_n, push_live, regrow}
use cros.DynString.Valid.{Edited, Holds, IsText, IsText-begins, IsText-fits, end_text}

pub int_fits : (n : ℕ) → n ≤ int_max → int n ≡ done n
int_fits n h = rw (le→leb n int_max h)

-- The writes that end both kinds of append.
abbrev pub place : ℕ → ℕ → ℕ → Block → ℕ → List ℕ → ℕ → Run (ℤ × DynString)
place len cur max blk n new len'' = write blk len new >>= λ copied. int len'' >>= λ len'.
    write copied len' (0 ∷ []) >>= λ ended.
    done (pos len', record { len = len'; pos_offset = cur; max = max; block = live ended })

module _ (cur max : ℕ) (blk : Block) (chars : List ℕ) (size : length blk ≡ max + 1)
    (b : BeginsWith blk chars) (inside : cur ≤ length chars) (small : max ≤ int_max) (new : List ℕ)
    (room : length chars + length new ≤ max) where
  copied : Block
  copied = splice (length chars) (map some new) blk

  pub place-Edited :
      (n : ℕ)
      → n ≡ length new
      → Edited cur chars (chars ++ new) (place (length chars) cur max blk n new (length chars + n))
  unfolding copied
  place-Edited n e =
      rw
        (
          write_within blk (length chars) new (omega arith),
          int_fits (length chars + n) (omega arith),
          total,
          t.1,
        )
        (record {
          ret = pos (length (chars ++ new));
          d' = record {
            len = length (chars ++ new);
            pos_offset = cur;
            max = max;
            block = live t.0;
          };
          returns = refl;
          same_cursor = refl;
          outcome = inl (
            refl,
            record {
              len_eq = refl;
              cursor = omega (arith, length-append {0} chars new);
              storage = t.2;
            },
          );
        })
    where
      total : length chars + n ≡ length (chars ++ new)
      total = omega (arith, length-append {0} chars new)

      t :
          (ended : Block) × (write copied (length (chars ++ new)) (0 ∷ []) ≡ done ended)
          × IsText ended max (chars ++ new)
      t =
          end_text copied max (chars ++ new)
            (length-splice (length chars) (map some new) blk
                (omega (arith, length-map {0, 0} {B = Cell} some new))
              ∙ size)
            (omega (arith, length-append {0} chars new)) (BeginsWith-append new b)

-- A NULL result of realloc: nothing has changed.
pub Edited-failed :
    (d : DynString) (chars chars' : List ℕ)
    → Holds d chars
    → Edited d.pos_offset chars chars' (done (minus_one, d))
Edited-failed d chars chars' h = record {
  ret = minus_one;
  d' = d;
  returns = refl;
  same_cursor = refl;
  outcome = inr (refl, h);
}

-- realloc to a size that fits in an `int` and is larger than the block.
pub regrow-Edited :
    (heap : Heap) (d : DynString) (blk : Block) (chars chars' : List ℕ) (total : ℕ)
    (k : Block → Run (ℤ × DynString))
    → Holds d chars
    → 0 < total
    → total ≤ int_max
    → Edited d.pos_offset chars chars' (k (resize total blk))
    → Edited d.pos_offset chars chars' (regrow heap d blk total k)
unfolding regrow realloc
regrow-Edited heap d blk chars chars' total k h positive fits e = elim (Bool-cases (heap total)) [
  | inl got ↦ rw (regrow, int_fits total fits, nonzero, got) e
  | inr no_memory ↦
      rw (regrow, int_fits total fits, nonzero, no_memory) (Edited-failed d chars chars' h)
]
  where
    nonzero : (total == 0) ≡ false
    nonzero = ground arith

module _ (heap : Heap) (len cur max : ℕ) (chars str : List ℕ) (n : ℕ) (src : n ≤ length str)
    (len_eq : len ≡ length chars) (inside : cur ≤ len) (fits : 2 * max + n + 257 ≤ int_max) where
  abbrev at : ℕ → Pointer → DynString
  at m p = record { len = len; pos_offset = cur; max = m; block = p }

  append-Edited :
      (m : ℕ) (blk : Block) (p : Pointer)
      → length blk ≡ m + 1
      → m ≤ int_max
      → BeginsWith blk chars
      → length chars + n ≤ m
      → Edited cur chars (chars ++ take n str) (append (at m p) blk str n)
  unfolding append
  append-Edited m blk p size small b room =
      rw (append, read_buf_within str n src, len_eq)
        (place-Edited cur m blk chars size b (omega (arith, len_eq)) small (take n str)
          (omega (arith, length-take_le n str src)) n (sym (length-take_le n str src)))

  push_live-Edited :
      (blk : Block)
      → IsText blk max chars
      → Edited cur chars (chars ++ take n str) (push_live heap (at max (live blk)) blk str n)
  unfolding push_live
  push_live-Edited blk t = elim (Bool-cases (ltb max (len + n))) [
    | inl more ↦
        rw (push_live, int_fits (len + n) (omega (arith, IsText-fits blk max chars t)), more)
          (regrow-Edited heap (at max (live blk)) blk chars (chars ++ take n str) (2 * max + n + 1)
            _ h (omega arith) (omega arith)
            (append-Edited (2 * max + n) (resize (2 * max + n + 1) blk)
              (live (resize (2 * max + n + 1) blk)) (length-resize (2 * max + n + 1) blk)
              (omega arith)
              (BeginsWith-resize (2 * max + n + 1) (omega (arith, t.0))
                (IsText-begins blk max chars t))
              (omega (arith, IsText-fits blk max chars t))))
    | inr room ↦
        rw (push_live, int_fits (len + n) (omega (arith, IsText-fits blk max chars t)), room)
          (append-Edited max blk (live blk) t.0 (omega arith) (IsText-begins blk max chars t)
            (omega (arith, len_eq, ltb_false→le max (len + n) room)))
  ]
    where
      h : Holds (at max (live blk)) chars
      h = record { len_eq = len_eq; cursor = inside; storage = t }

-- malloc of a size that fits in an `int`.
pub malloc-cases :
    (heap : Heap) (total : ℕ)
    → (malloc heap total ≡ none) ⊎ (malloc heap total ≡ some (replicate total none))
unfolding malloc
malloc-cases heap total = elim (Bool-cases (heap total)) [
  | inl got ↦ inr (rw got)
  | inr no_memory ↦ inl (rw no_memory)
]

push_from :
    (heap : Heap) (len cur max : ℕ) (p : Pointer) (chars str : List ℕ) (n : ℕ)
    → Holds (record { len = len; pos_offset = cur; max = max; block = p }) chars
    → n ≤ length str
    → 2 * max + n + 257 ≤ int_max
    → Edited cur chars (chars ++ take n str) (
        push_back_str_n heap
          (record { len = len; pos_offset = cur; max = max; block = p })
          (some str)
          n)
unfolding push_back_str_n
push_from heap len cur max null chars str n h src fits = elim (malloc-cases heap (256 + n + 1)) [
  | inl no_memory ↦
      rw (push_back_str_n, int_fits (256 + n + 1) (omega arith), ◌>>=◌, no_memory)
        (Edited-failed (record { len = len; pos_offset = cur; max = max; block = null }) chars
          (chars ++ take n str) h)
  | inr got ↦
      rw (push_back_str_n, int_fits (256 + n + 1) (omega arith), ◌>>=◌, got, h.storage.1)
        (append-Edited heap 0 cur max [] str n src refl
          (omega (arith, h.cursor, h.len_eq, ap length h.storage.1)) fits (256 + n)
          (replicate (256 + n + 1) none) (live (replicate (256 + n + 1) none))
          (length-replicate {0} {A = Cell} (256 + n + 1) none) (omega arith) (BeginsWith-nil _)
          (omega arith))
]
push_from heap len cur max (live blk) chars str n h src fits =
    push_live-Edited heap len cur max chars str n src h.len_eq h.cursor fits blk h.storage
push_from heap len cur max dangling chars str n h src fits = absurd h.storage

-- dynStringPushBackStrN on a well-formed string, with n characters to read and capacities that stay
-- below INT_MAX: it returns, without undefined behaviour, and either has put the n characters behind
-- the content and returns the new length, or returns -1 with the content as it was. The cursor stays
-- and the string is well formed again, its NUL included.
pub push_back_str_n-Edited :
    (heap : Heap) (d : DynString) (chars str : List ℕ) (n : ℕ)
    → Holds d chars
    → n ≤ length str
    → 2 * d.max + n + 257 ≤ int_max
    → Edited d.pos_offset chars (chars ++ take n str) (push_back_str_n heap d (some str) n)
push_back_str_n-Edited heap d chars str n h src fits =
    push_from heap d.len d.pos_offset d.max d.block chars str n h src fits

pub push_back_str-Edited :
    (heap : Heap) (d : DynString) (chars str : List ℕ)
    → Holds d chars
    → 2 * d.max + length str + 257 ≤ int_max
    → Edited d.pos_offset chars (chars ++ str) (push_back_str heap d (some str))
unfolding push_back_str
push_back_str-Edited heap d chars str h fits =
    subst
      (λ l. Edited d.pos_offset chars (chars ++ l) (push_back_str_n heap d (some str) (length str)))
      (take-all (length str) str (omega arith))
      (push_back_str_n-Edited heap d chars str (length str) h (omega arith) fits)
