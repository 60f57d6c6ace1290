-- ===== src/DynString/Edit.antt =====
-- dynStringPatch.
use Prim.Native.Nat.{max as max_of}
use native.Mathlib.Decide.{dec_lt}
use cros.Common.{
  Bool-cases, List, [], ap, append-nil, append_assoc, arith, drop, drop-append, inl, inr, int_max,
  length, length-append, length-drop, length-map, length-take, le→ltb_false, ltb, ltb_false→le,
  lt→ltb, map, pos, refl, some, subst, take, take-append, ℕ, ◌*◌, ◌++◌, ◌+◌, ◌-◌, ◌<◌, ◌∙◌, ◌∷◌,
  ◌≡◌, ◌≤◌,
}
use cros.Mem.{Block, Cell, Heap, Pointer, dangling, done, live, null, resize, splice, write}
use cros.Mem.Blocks.{
  BeginsWith, BeginsWith-resize, BeginsWith-splice, length-resize, length-splice, overwrite,
  write_within,
}
use cros.DynString.{DynString, patch, patch_block, patch_live}
use cros.DynString.Valid.{Edited, Holds, IsText, IsText-begins, IsText-fits, end_text}
use cros.DynString.Push.{Edited-failed, int_fits, regrow-Edited}

length-overwrite :
    (p : ℕ) (new chars : List ℕ)
    → p ≤ length chars
    → length (overwrite p new chars) ≡ max_of (length chars) (p + length new)
unfolding overwrite
length-overwrite p new chars h = omega (
  arith,
  length-append {0} (take p chars) (new ++ drop (p + length new) chars),
  length-append {0} new (drop (p + length new) chars),
  length-take p chars,
  length-drop (p + length new) chars,
)

module _ (cur max : ℕ) (str chars : List ℕ) (p : ℕ) (inside : p ≤ length chars)
    (cur_in : cur ≤ length chars) where
  abbrev at : Block → DynString
  at blk = record { len = length chars; pos_offset = cur; max = max; block = live blk }

  patch_longer :
      (blk : Block) (q : Pointer)
      → length blk ≡ max + 1
      → BeginsWith blk chars
      → p + length str ≤ max
      → length chars < p + length str
      → Edited cur chars
          (overwrite p str chars)
          (patch_block (record (at blk) { block = q }) blk str p (p + length str))
  unfolding patch_block
  patch_longer blk q size b room longer =
      rw
        (
          patch_block,
          write_within blk p str (omega arith),
          lt→ltb (length chars) (p + length str) longer,
          total,
          t.1,
        )
        (record {
          ret = pos (length (overwrite p str chars));
          d' = record {
            len = length (overwrite p str chars);
            pos_offset = cur;
            max = max;
            block = live t.0;
          };
          returns = refl;
          same_cursor = refl;
          outcome =
              inl (refl, record { len_eq = refl; cursor = omega (arith, total); storage = t.2 });
        })
    where
      copied : Block
      copied = splice p (map some str) blk

      total : p + length str ≡ length (overwrite p str chars)
      total = omega (arith, length-overwrite p str chars inside)

      t :
          (ended : Block) × (write copied (length (overwrite p str chars)) (0 ∷ []) ≡ done ended)
          × IsText ended max (overwrite p str chars)
      t =
          end_text copied max (overwrite p str chars)
            (length-splice p (map some str) blk
                (omega (arith, length-map {0, 0} {B = Cell} some str))
              ∙ size)
            (omega (arith, total)) (BeginsWith-splice p str inside b)

  overwrite-append :
      length str + p ≤ length chars
      → overwrite p str (chars ++ (0 ∷ [])) ≡ overwrite p str chars ++ (0 ∷ [])
  unfolding overwrite
  overwrite-append h =
      let e : p - length chars ≡ 0 = omega arith in
      let e' : p + length str - length chars ≡ 0 = omega arith in
      rw (take-append, drop-append, e, e') (simp (append_assoc, append-nil))

  patch_within :
      (blk : Block)
      → IsText blk max chars
      → p + length str ≤ length chars
      → Edited cur chars (overwrite p str chars) (patch_block (at blk) blk str p (p + length str))
  unfolding patch_block
  patch_within blk t room =
      rw
        (
          patch_block,
          write_within blk p str (omega (arith, t.0, IsText-fits blk max chars t)),
          le→ltb_false (length chars) (p + length str) room,
        )
        (record {
          ret = pos (length chars);
          d' = at (splice p (map some str) blk);
          returns = refl;
          same_cursor = refl;
          outcome = inl (
            ap pos same,
            record {
              len_eq = same;
              cursor = cur_in;
              storage = (
                length-splice p (map some str) blk (
                      omega (
                        arith,
                        t.0,
                        IsText-fits blk max chars t,
                        length-map {0, 0} {B = Cell} some str,
                      ))
                    ∙ t.0,
                subst (BeginsWith (splice p (map some str) blk)) (overwrite-append (omega arith))
                    (BeginsWith-splice p str (omega (arith, length-append {0} chars (0 ∷ []))) t.1),
              );
            },
          );
        })
    where
      same : length chars ≡ length (overwrite p str chars)
      same = omega (arith, length-overwrite p str chars inside)

  -- Either branch of patch_block, on a block that has room.
  patch_text :
      (blk : Block)
      → IsText blk max chars
      → p + length str ≤ max
      → Edited cur chars (overwrite p str chars) (patch_block (at blk) blk str p (p + length str))
  patch_text blk t room = elim (dec_lt (length chars) (p + length str)) [
    | yes longer ↦ patch_longer blk (live blk) t.0 (IsText-begins blk max chars t) room longer
    | no short ↦ patch_within blk t (omega arith)
  ]

module _ (heap : Heap) (cur max : ℕ) (blk : Block) (chars str : List ℕ) (p : ℕ)
    (inside : p ≤ length chars) (cur_in : cur ≤ length chars) (t : IsText blk max chars)
    (fits : 2 * max + length str + 1 ≤ int_max) where
  grown_text : IsText (resize (2 * max + length str + 1) blk) (2 * max + length str) chars
  grown_text = (
    length-resize (2 * max + length str + 1) blk,
    BeginsWith-resize (2 * max + length str + 1) (omega (arith, t.0)) t.1,
  )

  patch_live-Edited : Edited cur chars (overwrite p str chars) (
      patch_live heap
        (record { len = length chars; pos_offset = cur; max = max; block = live blk })
        blk
        str
        p)
  unfolding patch_live
  patch_live-Edited = elim (Bool-cases (ltb max (p + length str))) [
    | inl more ↦
        rw
          (patch_live, int_fits (p + length str) (omega (arith, IsText-fits blk max chars t)), more)
          (regrow-Edited heap
            (record { len = length chars; pos_offset = cur; max = max; block = live blk }) blk chars
            (overwrite p str chars) (2 * max + length str + 1) _
            (record { len_eq = refl; cursor = cur_in; storage = t }) (omega arith) fits
            (patch_text cur (2 * max + length str) str chars p inside cur_in
              (resize (2 * max + length str + 1) blk) grown_text
              (omega (arith, IsText-fits blk max chars t))))
    | inr room ↦
        rw
          (patch_live, int_fits (p + length str) (omega (arith, IsText-fits blk max chars t)), room)
          (patch_text cur max str chars p inside cur_in blk t
            (ltb_false→le max (p + length str) room))
  ]

patch_from :
    (heap : Heap) (len cur max : ℕ) (q : Pointer) (chars str : List ℕ) (p : ℕ)
    → Holds (record { len = len; pos_offset = cur; max = max; block = q }) chars
    → p ≤ length chars
    → 2 * max + length str + 1 ≤ int_max
    → Edited cur chars
        (overwrite p str chars)
        (patch heap (record { len = len; pos_offset = cur; max = max; block = q }) (some str) p)
unfolding patch
patch_from heap len cur max null chars str p h inside fits =
    Edited-failed (record { len = len; pos_offset = cur; max = max; block = null }) chars
      (overwrite p str chars) h
patch_from heap len cur max (live blk) chars str p h inside fits =
    rw (h.len_eq, le→ltb_false (length chars) p inside)
      (patch_live-Edited heap cur max blk chars str p inside (omega (arith, h.cursor, h.len_eq))
        h.storage fits)
patch_from heap len cur max dangling chars str p h inside fits = absurd h.storage

-- dynStringPatch on a well-formed string, at a position inside or just behind the content and with
-- capacities that stay below INT_MAX: it returns, and either has written the string over the
-- content at the position, lengthening it where needed, and returns the length, or returns -1 with
-- the content as it was. The cursor stays and the string is well formed again, its NUL included.
pub patch-Edited :
    (heap : Heap) (d : DynString) (chars str : List ℕ) (p : ℕ)
    → Holds d chars
    → p ≤ length chars
    → 2 * d.max + length str + 1 ≤ int_max
    → Edited d.pos_offset chars (overwrite p str chars) (patch heap d (some str) p)
patch-Edited heap d chars str p h inside fits =
    patch_from heap d.len d.pos_offset d.max d.block chars str p h inside fits
