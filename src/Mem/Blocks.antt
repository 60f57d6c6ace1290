-- ===== src/Mem/Blocks.antt =====
-- Blocks that begin with given bytes, and what malloc, realloc and memcpy make of them.
use cros.Common.{
  List, [], ap, append-nil, append_assoc, ap₂, arith, drop, drop-all, drop-append, drop-map, length,
  length-append, length-drop, length-map, length-replicate, length-take, le→leb, map, map-append,
  none, refl, replicate, some, subst, sym, take, take-all, take-append, take-append-drop, take-map,
  ℕ, ◌++◌, ◌+◌, ◌-◌, ◌∙◌, ◌≡◌, ◌≤◌,
}
use cros.Mem.{Block, Cell, done, read, read_buf, resize, splice, write}

-- The block is these bytes and some rest.
pub record BeginsWith (blk : Block) (bytes : List ℕ) : Type 0 where
  pub rest : Block
  pub same : blk ≡ map some bytes ++ rest

pub BeginsWith-nil : (blk : Block) → BeginsWith blk []
BeginsWith-nil blk = record { rest = blk; same = refl }

pub BeginsWith-length :
    {blk : Block} {bytes : List ℕ} (b : BeginsWith blk bytes)
    → length blk ≡ length bytes + length b.rest
BeginsWith-length {bytes = bytes} b =
    ap length b.same
    ∙ (length-append (map some bytes) b.rest
        ∙ ap (λ (n : ℕ). n + length b.rest) (length-map some bytes))

pub length-resize : (n : ℕ) (blk : Block) → length (resize n blk) ≡ n
unfolding resize
length-resize n blk = omega (
  arith,
  length-append {0} (take n blk) (replicate (n - length blk) none),
  length-take n blk,
  length-replicate {0} {A = Cell} (n - length blk) none,
)

-- Growing a block keeps the bytes that it begins with.
pub BeginsWith-resize :
    (n : ℕ) {blk : Block} {bytes : List ℕ}
    → length blk ≤ n
    → BeginsWith blk bytes
    → BeginsWith (resize n blk) bytes
unfolding resize
BeginsWith-resize n {blk} {bytes} h b = record {
  rest = b.rest ++ replicate (n - length blk) none;
  same =
      ap (λ (l : Block). l ++ replicate (n - length blk) none) (take-all n blk h ∙ b.same)
      ∙ append_assoc (map some bytes) b.rest (replicate (n - length blk) none);
}

pub length-splice :
    (i : ℕ) (cells blk : Block)
    → i + length cells ≤ length blk
    → length (splice i cells blk) ≡ length blk
unfolding splice
length-splice i cells blk h = omega (
  arith,
  length-append {0} (take i blk) (cells ++ drop (i + length cells) blk),
  length-append {0} cells (drop (i + length cells) blk),
  length-take i blk,
  length-drop (i + length cells) blk,
)

-- What the bytes of a block become when new ones are written at i.
unfoldable pub overwrite : ℕ → List ℕ → List ℕ → List ℕ
overwrite i new bytes = take i bytes ++ (new ++ drop (i + length new) bytes)

take_within :
    (i : ℕ) {blk : Block} {bytes : List ℕ}
    → i ≤ length bytes
    → BeginsWith blk bytes
    → take i blk ≡ map some (take i bytes)
take_within i {blk} {bytes} h b =
    let e : i - length (map {B = Cell} some bytes) ≡ 0 =
      omega (arith, length-map {0, 0} {B = Cell} some bytes) in
    ap (take i) b.same
    ∙ (take-append i (map some bytes) b.rest
        ∙ (ap₂ (λ (l : Block) (m : ℕ). l ++ take m b.rest) (take-map some i bytes) e
            ∙ append-nil (map some (take i bytes))))

drop_past :
    (i : ℕ) {blk : Block} {bytes : List ℕ} (b : BeginsWith blk bytes)
    → drop i blk ≡ map some (drop i bytes) ++ drop (i - length bytes) b.rest
drop_past i {blk} {bytes} b =
    ap (drop i) b.same
    ∙ (drop-append i (map some bytes) b.rest
        ∙ ap₂ (λ (l : Block) (m : ℕ). l ++ drop m b.rest) (drop-map some i bytes)
            (ap (λ (m : ℕ). i - m) (length-map some bytes)))

-- memcpy within or just behind the bytes that a block begins with.
pub BeginsWith-splice :
    (i : ℕ) (new : List ℕ) {blk : Block} {bytes : List ℕ}
    → i ≤ length bytes
    → BeginsWith blk bytes
    → BeginsWith (splice i (map some new) blk) (overwrite i new bytes)
unfolding splice overwrite
BeginsWith-splice i new {blk} {bytes} h b = record {
  rest = drop (i + length new - length bytes) b.rest;
  same =
      ap₂ (λ (l m : Block). l ++ (map some new ++ m)) (take_within i h b)
        (ap (λ (m : ℕ). drop (i + m) blk) (length-map some new) ∙ drop_past (i + length new) b)
      ∙ simp (map-append, append_assoc);
}

-- memcpy inside the block does not fault.
pub write_within :
    (blk : Block) (i : ℕ) (bytes : List ℕ)
    → i + length bytes ≤ length blk
    → write blk i bytes ≡ done (splice i (map some bytes) blk)
unfolding write
write_within blk i bytes h = rw (le→leb _ _ h)

pub read_buf_within : (buf : List ℕ) (n : ℕ) → n ≤ length buf → read_buf buf n ≡ done (take n buf)
unfolding read_buf
read_buf_within buf n h = rw (le→leb _ _ h)

pub length-take_le : (n : ℕ) (buf : List ℕ) → n ≤ length buf → length (take n buf) ≡ n
length-take_le n buf h = omega (arith, length-take n buf)

-- Writing just behind the bytes appends.
pub BeginsWith-append :
    (new : List ℕ) {blk : Block} {bytes : List ℕ}
    → BeginsWith blk bytes
    → BeginsWith (splice (length bytes) (map some new) blk) (bytes ++ new)
unfolding overwrite
BeginsWith-append new {blk} {bytes} b =
    subst (BeginsWith (splice (length bytes) (map some new) blk)) behind
      (BeginsWith-splice (length bytes) new (omega arith) b)
  where
    behind : overwrite (length bytes) new bytes ≡ bytes ++ new
    behind =
        ap₂ (λ (l m : List ℕ). l ++ (new ++ m)) (take-all (length bytes) bytes (omega arith))
          (drop-all (length bytes + length new) bytes (omega arith))
        ∙ ap (λ (l : List ℕ). bytes ++ l) (append-nil new)

pub BeginsWith-drop :
    (i : ℕ) {blk : Block} {bytes : List ℕ}
    → BeginsWith blk bytes
    → BeginsWith (drop i blk) (drop i bytes)
BeginsWith-drop i {bytes = bytes} b = record {
  rest = drop (i - length bytes) b.rest;
  same = drop_past i b;
}

-- memcpy out of the bytes that the block begins with.
pub read_within :
    (i n : ℕ) {blk : Block} {bytes : List ℕ}
    → i + n ≤ length bytes
    → BeginsWith blk bytes
    → read blk i n ≡ done (map some (take n (drop i bytes)))
unfolding read
read_within i n {blk} {bytes} h b =
    rw (le→leb (i + n) (length blk) (omega (arith, BeginsWith-length b)))
      (ap done (take_within n (omega (arith, length-drop i bytes)) (BeginsWith-drop i b)))

-- A block that begins with bytes begins with any first part of them.
pub BeginsWith-take :
    (i : ℕ) {blk : Block} {bytes : List ℕ} → BeginsWith blk bytes → BeginsWith blk (take i bytes)
BeginsWith-take i {bytes = bytes} b = record {
  rest = map some (drop i bytes) ++ b.rest;
  same =
      b.same
      ∙ (ap (λ (l : List ℕ). map some l ++ b.rest) (sym (take-append-drop i bytes))
          ∙ simp (map-append, append_assoc));
}
