-- ===== src/Message/Deserialize/NumberArrays.antt =====
-- Arrays of numbers of variable length against the bytes that stand for them.
use cros.Common.{
  Bool, List, [], ap, ap₂, arith, int_max, length, le→leb, mul_size, none, not, pos, refl, some,
  sym, take, true, ℕ, ℤ, ◌&&◌, ◌*◌, ◌++◌, ◌∙◌, ◌≡◌, ◌≤◌,
}
use cros.DynBuffer.{le_bytes}
use cros.Mem.{Block, done}
use cros.Mem.Blocks.{BeginsWith-nil}
use cros.Message.{Data, FieldHead, as_array, field, kind, plain}
use cros.Message.Copy.{count}
use cros.Message.Types.{type_size}
use cros.Message.Arrays.{is_variable, values_push_back}
use cros.Message.Arrays.Pushes.{ArrayHolds, ValuesPushed, values_push_back-ValuesPushed}
use cros.Message.Elements.{array_clear, clear_elements}
use cros.Message.Serialize.Wire.{known, wire, wire_data, wire_field}
use cros.Message.Deserialize.Reads.{Input, move, read_elements, read_variable}
use cros.Message.Deserialize.Cursor.{
  At, Got, Got-then, copy_next, enough_left, moved, next_small, stored-some,
}
use cros.Message.Deserialize.Numbers.{SentAs, known_first, read_number-Got, wire_variable}

variable_as :
    (g h : FieldHead)
    → g.is_array ≡ h.is_array
    → g.is_fixed_array ≡ h.is_fixed_array
    → is_variable g ≡ is_variable h
variable_as g h a f = ap₂ (λ (x y : Bool). x && not y) a f

wire_elements :
    (h : FieldHead) (d : Data) (n : ℕ) (new : List ℕ)
    → is_variable h ≡ true
    → h.array_size ≡ pos n
    → ArrayHolds h d (type_size h.type) new
    → type_size h.type * n ≡ length new
    → wire_field (field h d) ≡ le_bytes 4 n ++ new
unfolding wire
wire_elements h d n new variable size holds all =
    wire_variable h d variable
    ∙ ap₂ (λ (m : ℕ) (l : List ℕ). le_bytes 4 m ++ l) (ap count size)
        (ap (wire_data h) holds.data_eq
          ∙ (ap (λ (m : ℕ). known (take m holds.blk))
                (ap (λ (z : ℤ). type_size h.type * count z) size ∙ all)
              ∙ known_first holds.begins))

-- The elements of an array of variable length, behind their number.
read_elements-Got :
    (h : FieldHead) (d : Data) (n : ℕ) (new rest : List ℕ) (i : Input)
    → is_variable h ≡ true
    → ArrayHolds h d (type_size h.type) []
    → length new ≡ type_size h.type * n
    → count h.array_size ≡ 0
    → n * 3 ≤ int_max
    → At (new ++ rest) i
    → Got (SentAs (le_bytes 4 n ++ new)) rest (read_elements (field h d) (type_size h.type) n i)
unfolding read_elements wire
read_elements-Got h d n new rest i variable holds size empty few ready =
    rw
      (
        exact,
        enough_left i new rest ready,
        le→leb n int_max (omega arith),
        copy_next i new rest ready,
        stored-some new,
        p.returns,
      )
      (record {
        value = field p.h' p.d';
        input = move (record { code = 0; buffer = i.buffer; answers = p.a' }) (length new);
        returns = refl;
        good =
            wire_elements p.h' p.d' n new
              (variable_as p.h' h p.still_array p.still_fixed ∙ variable)
              (p.more ∙ ap pos (omega (arith, empty))) (rw p.same_type p.held)
              (rw p.same_type (sym size));
        ready = moved i new rest ready 0 p.a' refl (p.memory ready.memory);
      })
  where
    exact : mul_size n (type_size h.type) ≡ length new
    exact = omega (arith, size, next_small i new rest ready)

    p :
        ValuesPushed i.answers h
          (type_size h.type)
          []
          new
          n
          (values_push_back i.answers (field h d) new (type_size h.type) n)
    p =
        values_push_back-ValuesPushed i.answers h d (type_size h.type) n [] new variable holds size
          (omega arith) (omega (arith, next_small i new rest ready)) (ready.memory 0)

-- An array of numbers of variable length whose old block is as large as its capacity.
pub read_variable-Got :
    (h : FieldHead) (blk : Block) (n : ℕ) (new rest : List ℕ) (i : Input)
    → is_variable h ≡ true
    → kind h.type ≡ plain
    → length blk ≡ count h.array_capacity * type_size h.type
    → length new ≡ type_size h.type * n
    → n * 3 ≤ int_max
    → At (le_bytes 4 n ++ (new ++ rest)) i
    → Got (SentAs (le_bytes 4 n ++ new)) rest (read_variable h (as_array blk) i)
unfolding read_variable array_clear clear_elements
read_variable-Got h blk n new rest i variable of_kind room size few ready =
    rw (variable, of_kind)
      (Got-then
        {f = λ x j. elim x [
          | none ↦ done (field (record h { array_size = pos 0 }) (as_array blk), j)
          | some m ↦
              read_elements (field (record h { array_size = pos 0 }) (as_array blk))
                (type_size h.type) m j
        ]}
        (read_number-Got i n (new ++ rest) (omega arith) ready)
        (λ x j e r. rw e (
          read_elements-Got (record h { array_size = pos 0 }) (as_array blk) n new rest j variable
            (record {
              blk = blk;
              data_eq = refl;
              counted = refl;
              size_eq = omega arith;
              room = room;
              begins = BeginsWith-nil blk;
            })
            size refl few r)))
