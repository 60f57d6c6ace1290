-- ===== src/Message/Deserialize/Numbers.antt =====
-- Numbers and arrays of numbers against the bytes that stand for them.
use cros.Common.{
  List, [], ap, arith, drop, false, length, length-map, map, mul_size, none, pos, refl, size_of_int,
  some, sym, take, take-append_eq, true, ℕ, ℤ, ◌*◌, ◌++◌, ◌<◌, ◌^◌, ◌∙◌, ◌∷◌, ◌≡◌, ◌≤◌,
}
use cros.DynBuffer.{le_bytes}
use cros.DynBuffer.Values.{from_le, from_le-le_bytes, length-le_bytes}
use cros.Mem.{Block, done, splice, write, ◌>>=◌}
use cros.Message.{Data, Field, FieldHead, as_array, field, opaque}
use cros.Message.Copy.{count}
use cros.Message.Types.{type_size}
use cros.Message.Arrays.{is_variable}
use cros.Message.Serialize.Wire.{known, wire, wire_count, wire_data, wire_field}
use cros.Message.Deserialize.Reads.{Input, read_content, read_fixed, read_number, read_opaque}
use cros.Message.Deserialize.Cursor.{At, Got, Got-then, next_small, read_content-Got}
use cros.Mem.Blocks.{BeginsWith, BeginsWith-append, BeginsWith-nil, write_within}
use cros.Message.Serialize.{array_bytes}

-- The field would be sent as these bytes.
abbrev pub SentAs : List ℕ → Field → Type 0
SentAs new f = wire_field f ≡ new

pub wire_single :
    (h : FieldHead) (d : Data) → h.is_array ≡ false → wire_field (field h d) ≡ wire_data h d
unfolding wire wire_count
wire_single h d e = rw (wire_field, wire_count, e) refl

-- The count comes first where the array is of variable length.
pub wire_variable :
    (h : FieldHead) (d : Data)
    → is_variable h ≡ true
    → wire_field (field h d) ≡ le_bytes 4 (count h.array_size) ++ wire_data h d
unfolding wire wire_count
wire_variable h d e = rw (wire_field, wire_count, e) refl

pub wire_fixed :
    (h : FieldHead) (d : Data) → is_variable h ≡ false → wire_field (field h d) ≡ wire_data h d
unfolding wire wire_count
wire_fixed h d e = rw (wire_field, wire_count, e) refl

pub read_content-these :
    (i : Input) (n : ℕ) (first rest : List ℕ)
    → n ≡ length first
    → At (first ++ rest) i
    → Got (λ bytes. bytes ≡ some first) rest (read_content i n)
read_content-these i n first rest e ready = rw e (read_content-Got i first rest ready)

pub read_number-Got :
    (i : Input) (n : ℕ) (rest : List ℕ)
    → n < 2 ^ 32
    → At (le_bytes 4 n ++ rest) i
    → Got (λ x. x ≡ some n) rest (read_number i)
unfolding read_number
read_number-Got i n rest small ready =
    Got-then
      {f = λ x j. elim x [ none ↦ done (none, j) | some bytes ↦ done (some (from_le bytes), j) ]}
      (read_content-these i 4 (le_bytes 4 n) rest (sym (length-le_bytes 4 n)) ready)
      (λ x j e r. rw e (record {
        value = some (from_le (le_bytes 4 n));
        input = j;
        returns = refl;
        good = ap some (from_le-le_bytes 4 n (omega arith));
        ready = r;
      }))

known-some : (bytes : List ℕ) → known (map some bytes) ≡ bytes
unfolding known
known-some [] = refl
known-some (b ∷ bytes) = ap (λ (l : List ℕ). b ∷ l) (known-some bytes)

pub known_first :
    {blk : Block} {bytes : List ℕ} → BeginsWith blk bytes → known (take (length bytes) blk) ≡ bytes
known_first {bytes = bytes} b =
    ap (λ (l : Block). known (take (length bytes) l)) b.same
    ∙ (ap known
          (take-append_eq (length bytes) (map some bytes) b.rest (sym (length-map some bytes)))
        ∙ known-some bytes)

module _ (h : FieldHead) (new rest : List ℕ) (i : Input) where
  pub read_opaque-Got :
      (old : List ℕ)
      → h.is_array ≡ false
      → type_size h.type ≡ length new
      → At (new ++ rest) i
      → Got (SentAs new) rest (read_opaque h old i)
  unfolding read_opaque wire
  read_opaque-Got old single size ready =
      Got-then
        {f = λ x j. elim x [
          | none ↦ done (field h (opaque old), j)
          | some bytes ↦ done (field h (opaque (bytes ++ drop (length bytes) old)), j)
        ]}
        (read_content-these i (type_size h.type) new rest size ready)
        (λ x j e r. rw e (record {
          value = field h (opaque (new ++ drop (length new) old));
          input = j;
          returns = refl;
          good =
              wire_single h (opaque (new ++ drop (length new) old)) single
              ∙ take-append_eq (type_size h.type) new (drop (length new) old) size;
          ready = r;
        }))

  pub read_fixed-Got :
      (blk : Block)
      → is_variable h ≡ false
      → type_size h.type * count h.array_size ≡ length new
      → h.array_size ≡ pos (count h.array_size)
      → length new ≤ length blk
      → At (new ++ rest) i
      → Got (SentAs new) rest (read_fixed h (as_array blk) i)
  unfolding read_fixed wire
  read_fixed-Got blk fixed size positive room ready =
      Got-then
        {f = λ x j. elim x [
          | none ↦ done (field h (as_array blk), j)
          | some bytes ↦ write blk 0 bytes >>= λ blk'. done (field h (as_array blk'), j)
        ]}
        (read_content-these i (array_bytes h) new rest exact ready)
        (λ x j e r.
          rw (e, write_within blk 0 new (omega arith))
            (record {
              value = field h (as_array (splice 0 (map some new) blk));
              input = j;
              returns = refl;
              good =
                  wire_fixed h (as_array (splice 0 (map some new) blk)) fixed
                  ∙ (ap (λ (n : ℕ). known (take n (splice 0 (map some new) blk))) size
                      ∙ known_first (BeginsWith-append new {bytes = []} (BeginsWith-nil blk)));
              ready = r;
            }))
    where
      exact : array_bytes h ≡ length new
      exact = omega (
        arith,
        ap (λ (z : ℤ). mul_size (type_size h.type) (size_of_int z)) positive,
        size,
        next_small i new rest ready,
      )
