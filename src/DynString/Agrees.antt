-- ===== src/DynString/Agrees.antt =====
-- The appends on content and capacity alone (Texts) against dynStringPushBackStr on blocks.
use cros.Common.{
  Bool, Bool-cases, List, [], arith, false, inl, inr, int_max, length, length-append, length-map,
  length-replicate, ltb, ltb_false→le, map, minus_one, none, pos, refl, replicate, some, subst,
  take-all, ℕ, ℤ, ◌*◌, ◌++◌, ◌+◌, ◌==◌, ◌∙◌, ◌∷◌, ◌≡◌, ◌≤◌,
}
use cros.Mem.{
  Answers, Block, Cell, Pointer, Run, dangling, done, later, live, malloc, null, realloc, resize,
  splice, write,
}
use cros.Mem.Blocks.{
  BeginsWith, BeginsWith-append, BeginsWith-nil, BeginsWith-resize, length-resize, length-splice,
  read_buf_within, write_within,
}
use cros.DynString.{DynString, append, push_back_str, push_back_str_n, push_live, regrow}
use cros.DynString.Push.{int_fits}
use cros.DynString.Valid.{Holds, IsText, IsText-begins, IsText-fits, end_text}
use cros.DynString.Texts.{Contents, chars_in, nothing, push_text}

-- What a string that holds these characters is on that level.
abbrev pub contents : DynString → List ℕ → Contents
contents d chars = elim (d.block) [
  | null ↦ nothing
  | live blk ↦ chars_in chars d.max
  | dangling ↦ nothing
]

-- A run on blocks and one on contents end alike.
pub record Agree (r : Run (ℤ × DynString)) (t : Run (Contents × Answers)) : Type 0 where
  pub ret : ℤ
  pub d' : DynString
  pub chars' : List ℕ
  pub answers : Answers
  pub returns : r ≡ done (ret, d')
  pub holds : Holds d' chars'
  pub same : t ≡ done (contents d' chars', answers)

module _ (cur : ℕ) (chars new : List ℕ) (inside : cur ≤ length chars) where
  append-Agree :
      (max : ℕ) (blk : Block) (p : Pointer) (a : Answers)
      → length blk ≡ max + 1
      → BeginsWith blk chars
      → length chars + length new ≤ max
      → max ≤ int_max
      → Agree
          (append
            (record { len = length chars; pos_offset = cur; max = max; block = p })
            blk
            new
            (length new))
          (done (chars_in (chars ++ new) max, a))
  unfolding append
  append-Agree max blk p a size b room small =
      rw
        (
          append,
          read_buf_within new (length new) (omega arith),
          take-all (length new) new (omega arith),
          write_within blk (length chars) new (omega arith),
          int_fits (length chars + length new) (omega arith),
          total,
          t.1,
        )
        (record {
          ret = pos (length (chars ++ new));
          d' = record {
            len = length (chars ++ new);
            pos_offset = cur;
            max = max;
            block = live t.0;
          };
          chars' = chars ++ new;
          answers = a;
          returns = refl;
          holds = record { len_eq = refl; cursor = omega (arith, total); storage = t.2 };
          same = refl;
        })
    where
      total : length chars + length new ≡ length (chars ++ new)
      total = omega (arith, length-append {0} chars new)

      copied : Block
      copied = splice (length chars) (map some new) blk

      t :
          (ended : Block) × (write copied (length (chars ++ new)) (0 ∷ []) ≡ done ended)
          × IsText ended max (chars ++ new)
      t =
          end_text copied max (chars ++ new)
            (length-splice (length chars) (map some new) blk
                (omega (arith, length-map {0, 0} {B = Cell} some new))
              ∙ size)
            (omega (arith, length-append {0} chars new)) (BeginsWith-append new b)

-- The allocator's answer to the one request that an append makes.
module _ (a : Answers) (cur max : ℕ) (chars new : List ℕ) where
  abbrev heap : ℕ → Bool
  heap n = a 0

  abbrev at : Pointer → DynString
  at p = record { len = length chars; pos_offset = cur; max = max; block = p }

  live-Agree :
      (blk : Block)
      → cur ≤ length chars
      → IsText blk max chars
      → 2 * max + length new + 257 ≤ int_max
      → Agree
          (push_live heap (at (live blk)) blk new (length new))
          (push_text a (chars_in chars max) new)
  unfolding push_live regrow realloc push_text
  live-Agree blk inside t fits =
      let need : length chars + length new ≤ int_max = omega (arith, IsText-fits blk max chars t) in
      elim (Bool-cases (ltb max (length chars + length new))) [
        | inl more ↦
            let total : 2 * max + length new + 1 ≤ int_max = omega arith in
            let nonzero : (2 * max + length new + 1 == 0) ≡ false = ground arith in
            elim (Bool-cases (a 0)) [
              | inl got ↦
                  rw
                    (
                      push_live,
                      push_text,
                      int_fits (length chars + length new) need,
                      more,
                      regrow,
                      int_fits (2 * max + length new + 1) total,
                      nonzero,
                      got,
                    )
                    (append-Agree cur chars new inside (2 * max + length new)
                      (resize (2 * max + length new + 1) blk)
                      (live (resize (2 * max + length new + 1) blk)) (later a)
                      (length-resize (2 * max + length new + 1) blk)
                      (BeginsWith-resize (2 * max + length new + 1) (omega (arith, t.0))
                        (IsText-begins blk max chars t))
                      (omega (arith, IsText-fits blk max chars t)) (omega arith))
              | inr no_memory ↦
                  rw
                    (
                      push_live,
                      push_text,
                      int_fits (length chars + length new) need,
                      more,
                      regrow,
                      int_fits (2 * max + length new + 1) total,
                      nonzero,
                      no_memory,
                    )
                    (record {
                      ret = minus_one;
                      d' = at (live blk);
                      chars' = chars;
                      answers = later a;
                      returns = refl;
                      holds = record { len_eq = refl; cursor = inside; storage = t };
                      same = refl;
                    })
            ]
        | inr room ↦
            rw (push_live, push_text, int_fits (length chars + length new) need, room)
              (append-Agree cur chars new inside max blk (live blk) a t.0
                (IsText-begins blk max chars t) (ltb_false→le max _ room) (omega arith))
      ]

null-Agree :
    (a : Answers) (len cur max : ℕ) (new : List ℕ)
    → Holds (record { len = len; pos_offset = cur; max = max; block = null }) []
    → length new + 257 ≤ int_max
    → Agree
        (push_back_str_n
          (λ n. a 0)
          (record { len = len; pos_offset = cur; max = max; block = null })
          (some new)
          (length new))
        (push_text a nothing new)
unfolding push_back_str_n push_text malloc
null-Agree a len cur max new h fits =
    let total : 256 + length new + 1 ≤ int_max = omega arith in
    elim (Bool-cases (a 0)) [
      | inl got ↦
          rw (push_back_str_n, push_text, int_fits (256 + length new + 1) total, got)
            (append-Agree cur [] new (omega (arith, h.cursor, h.len_eq)) (256 + length new)
              (replicate (256 + length new + 1) none) (live (replicate (256 + length new + 1) none))
              (later a) (length-replicate {0} {A = Cell} (256 + length new + 1) none)
              (BeginsWith-nil _) (omega arith) (omega arith))
      | inr no_memory ↦
          rw (push_back_str_n, push_text, int_fits (256 + length new + 1) total, no_memory)
            (record {
              ret = minus_one;
              d' = record { len = len; pos_offset = cur; max = max; block = null };
              chars' = [];
              answers = later a;
              returns = refl;
              holds = h;
              same = refl;
            })
    ]

compared_from :
    (a : Answers) (len cur max : ℕ) (p : Pointer) (chars new : List ℕ)
    → Holds (record { len = len; pos_offset = cur; max = max; block = p }) chars
    → 2 * max + length new + 257 ≤ int_max
    → Agree
        (push_back_str
          (λ n. a 0)
          (record { len = len; pos_offset = cur; max = max; block = p })
          (some new))
        (push_text a
          (contents (record { len = len; pos_offset = cur; max = max; block = p }) chars)
          new)
unfolding push_back_str push_back_str_n
compared_from a len cur max null chars new h fits =
    null-Agree a len cur max new
      (subst
        (λ (l : List ℕ). Holds (record { len = len; pos_offset = cur; max = max; block = null }) l)
        h.storage.1 h)
      (omega arith)
compared_from a len cur max (live blk) chars new h fits =
    rw (h.len_eq)
      (live-Agree a cur max chars new blk (omega (arith, h.cursor, h.len_eq)) h.storage fits)
compared_from a len cur max dangling chars new h fits = absurd h.storage

-- dynStringPushBackStr on a well-formed string whose capacity stays below INT_MAX, with one answer to
-- its request for memory: the run on blocks and the one on contents end alike.
pub push_back_str-push_text :
    (a : Answers) (d : DynString) (chars new : List ℕ)
    → Holds d chars
    → 2 * d.max + length new + 257 ≤ int_max
    → Agree (push_back_str (λ n. a 0) d (some new)) (push_text a (contents d chars) new)
push_back_str-push_text a d chars new h fits =
    compared_from a d.len d.pos_offset d.max d.block chars new h fits
