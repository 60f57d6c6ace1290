-- ===== src/Message/Arrays/Pushes.antt =====
-- arrayFieldValuesPushBack on an array of numbers, and where arrayFieldValueAt then points.
use cros.Common.{
  Bool-cases, List, ap, arith, false, inl, inr, int_max, leb, leb_false→lt, leb→le, length,
  length-append, length-map, le→leb, map, pos, refl, some, suc, sym, take-all, true, ℕ, ℤ, ◌*◌,
  ◌++◌, ◌+◌, ◌-◌, ◌/◌, ◌<◌, ◌∙◌, ◌≡◌, ◌≤◌,
}
use cros.Mem.{Answers, Block, Cell, Run, done, later, resize, splice}
use cros.Mem.Blocks.{
  BeginsWith, BeginsWith-append, BeginsWith-resize, length-resize, length-splice, read_buf_within,
  write_within,
}
use cros.Message.{Data, Field, FieldHead, as_array, field}
use cros.Message.Copy.{count}
use cros.Message.Arrays.{is_negative, is_variable, values_copy, values_push_back}

-- An array of elements of `element` bytes whose elements are these bytes.
pub record ArrayHolds (h : FieldHead) (d : Data) (element : ℕ) (bytes : List ℕ) : Type 0 where
  pub blk : Block
  pub data_eq : d ≡ as_array blk
  pub counted : is_negative h.array_size ≡ false
  pub size_eq : count h.array_size * element ≡ length bytes
  pub room : length blk ≡ count h.array_capacity * element
  pub begins : BeginsWith blk bytes

-- What a push leaves: success, n elements more, and their bytes behind the others.
pub record ValuesPushed (a : Answers) (h : FieldHead) (element : ℕ) (bytes new : List ℕ) (n : ℕ)
    (r : Run (ℤ × Field × Answers)) : Type 0 where
  pub h' : FieldHead
  pub d' : Data
  pub a' : Answers
  pub returns : r ≡ done (pos 0, field h' d', a')
  pub memory : ((k : ℕ) → a k ≡ true) → (k : ℕ) → a' k ≡ true
  pub more : h'.array_size ≡ pos (count h.array_size + n)
  pub same_type : h'.type ≡ h.type
  pub still_array : h'.is_array ≡ h.is_array
  pub still_fixed : h'.is_fixed_array ≡ h.is_fixed_array
  pub held : ArrayHolds h' d' element (bytes ++ new)

module _ (h : FieldHead) (blk : Block) (element n : ℕ) (bytes new : List ℕ)
    (size : count h.array_size * element ≡ length bytes) (begins : BeginsWith blk bytes)
    (more : length new ≡ element * n) (small : length bytes + length new ≤ int_max) where
  there :
      length blk ≡ count h.array_capacity * element
      → count h.array_size + n ≤ count h.array_capacity
      → length bytes + length new ≤ length blk
  there room fits =
      let left : ℕ = count h.array_capacity - (count h.array_size + n) in
      let split : count h.array_capacity ≡ count h.array_size + n + left = omega arith in
      omega (arith, ap (λ (t : ℕ). t * element) split)

  -- Where the block has room: memcpy behind the elements.
  copied :
      length blk ≡ count h.array_capacity * element
      → count h.array_size + n ≤ count h.array_capacity
      → values_copy h blk new element n
        ≡ done (
          pos 0,
          field
              (record h { array_size = pos (count h.array_size + n) })
              (as_array (splice (length bytes) (map some new) blk)),
        )
  unfolding values_copy
  copied room fits =
      rw
        (
          size,
          le→leb (length bytes) int_max (omega arith),
          sym more,
          le→leb (length new) int_max (omega arith),
          read_buf_within new (length new) (omega arith),
          take-all (length new) new (omega arith),
          write_within blk (length bytes) new (there room fits),
        )
        refl

  held :
      (size' : ℤ)
      → size' ≡ pos (count h.array_size + n)
      → length blk ≡ count h.array_capacity * element
      → count h.array_size + n ≤ count h.array_capacity
      → ArrayHolds
          (record h { array_size = size' })
          (as_array (splice (length bytes) (map some new) blk))
          element
          (bytes ++ new)
  held size' e room fits = record {
    blk = splice (length bytes) (map some new) blk;
    data_eq = refl;
    counted = rw e refl;
    size_eq = rw e (omega (arith, length-append {0} bytes new, size, more));
    room =
        length-splice (length bytes) (map some new) blk
          (omega (arith, length-map {0, 0} {B = Cell} some new, there room fits))
        ∙ room;
    begins = BeginsWith-append new begins;
  }

-- arrayFieldValuesPushBack of n elements, given as their bytes, on an array of variable length whose
-- elements are well formed, with memory, counts whose triple is an `int`, and sizes in bytes that are `int`s: it returns 0, and
-- the array then holds the new elements behind the old ones in a block that is large enough.
pub values_push_back-ValuesPushed :
    (a : Answers) (h : FieldHead) (d : Data) (element n : ℕ) (bytes new : List ℕ)
    → is_variable h ≡ true
    → ArrayHolds h d element bytes
    → length new ≡ element * n
    → (count h.array_size + n) * 3 ≤ int_max
    → length bytes + length new ≤ int_max
    → a 0 ≡ true
    → ValuesPushed a h element bytes new n (values_push_back a (field h d) new element n)
unfolding values_push_back
values_push_back-ValuesPushed a h d element n bytes new variable holds more small little memory =
    elim (Bool-cases (leb (count h.array_size + n) (count h.array_capacity))) [
      | inl fits ↦
          let room : count h.array_size + n ≤ count h.array_capacity = leb→le _ _ fits in
          rw
            (
              holds.data_eq,
              variable,
              holds.counted,
              le→leb (count h.array_size + n) int_max (omega arith),
              fits,
              copied h holds.blk element n bytes new holds.size_eq holds.begins more little
                  holds.room room,
            )
            (record {
              h' = record h { array_size = pos (count h.array_size + n) };
              d' = as_array (splice (length bytes) (map some new) holds.blk);
              a' = a;
              returns = refl;
              memory = λ m. m;
              more = refl;
              same_type = refl;
              still_array = refl;
              still_fixed = refl;
              held =
                  held h holds.blk element n bytes new holds.size_eq holds.begins more little
                    (pos (count h.array_size + n)) refl holds.room room;
            })
      | inr grows ↦
          let narrow : count h.array_capacity < count h.array_size + n = leb_false→lt _ _ grows in
          let room : count h.array_size + n ≤ (count h.array_size + n) * 3 / 2 = omega arith in
          let new_cap : ℕ = (count h.array_size + n) * 3 / 2 in
          let left : ℕ = new_cap - count h.array_capacity in
          let split : new_cap ≡ count h.array_capacity + left = omega arith in
          let wider : length holds.blk ≤ new_cap * element =
            omega (arith, ap (λ (t : ℕ). t * element) split, holds.room) in
          rw
            (
              holds.data_eq,
              variable,
              holds.counted,
              le→leb (count h.array_size + n) int_max (omega arith),
              grows,
              le→leb ((count h.array_size + n) * 3) int_max small,
              memory,
              copied (record h { array_capacity = pos new_cap })
                  (resize (new_cap * element) holds.blk) element n bytes new holds.size_eq
                  (BeginsWith-resize (new_cap * element) wider holds.begins) more little
                  (length-resize (new_cap * element) holds.blk) room,
            )
            (record {
              h' = record h {
                array_size = pos (count h.array_size + n);
                array_capacity = pos new_cap;
              };
              d' =
                  as_array
                    (splice (length bytes) (map some new) (resize (new_cap * element) holds.blk));
              a' = later a;
              returns = refl;
              memory = λ m k. m (suc k);
              more = refl;
              same_type = refl;
              still_array = refl;
              still_fixed = refl;
              held =
                  held (record h { array_capacity = pos new_cap })
                    (resize (new_cap * element) holds.blk) element n bytes new holds.size_eq
                    (BeginsWith-resize (new_cap * element) wider holds.begins) more little
                    (pos (count h.array_size + n)) refl
                    (length-resize (new_cap * element) holds.blk) room;
            })
    ]
