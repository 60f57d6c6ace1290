-- ===== src/Message/Arrays/Tests.antt =====
-- Pushing onto an array of 16-bit numbers that is full, and the names of the types.
use cros.Common.{[], arith, false, none, pos, refl, some, true, ◌∷◌, ◌≡◌}
use cros.Common.Decimal.{chars}
use cros.Mem.{plenty}
use cros.Message.{Data, FieldHead, as_array, bool_type, field, uint16_type}
use cros.Message.Types.{get_message_type, type_declaration, type_size, type_string}
use cros.Message.Types.Names.{get_message_type-names, read_name}
use cros.Message.Arrays.{push_back_of}
use cros.Message.Elements.{at_of, value_at}
use cros.Message.Arrays.Pushes.{ArrayHolds}
use cros.Message.Arrays.Access.{ElementPushed, push_back_of-at}

abbrev two_numbers : FieldHead
two_numbers = record {
  name = some (chars "values");
  type_s = none;
  size = pos 2;
  is_const = false;
  is_array = true;
  is_fixed_array = false;
  array_size = pos 2;
  array_capacity = pos 2;
  type = uint16_type;
}

abbrev numbers : Data
numbers = as_array (some 1 ∷ some 0 ∷ some 2 ∷ some 0 ∷ [])

numbers-ArrayHolds : ArrayHolds two_numbers numbers (type_size uint16_type) (1 ∷ 0 ∷ 2 ∷ 0 ∷ [])
unfolding type_size
numbers-ArrayHolds = record {
  blk = some 1 ∷ some 0 ∷ some 2 ∷ some 0 ∷ [];
  data_eq = refl;
  counted = refl;
  size_eq = refl;
  room = refl;
  begins = record { rest = []; same = refl };
}

push_back_of-at_example :
    ElementPushed plenty uint16_type two_numbers
      (1 ∷ 0 ∷ 2 ∷ 0 ∷ [])
      0x0103
      (push_back_of uint16_type plenty (field two_numbers numbers) 0x0103)
push_back_of-at_example =
    push_back_of-at uint16_type plenty two_numbers numbers (1 ∷ 0 ∷ 2 ∷ 0 ∷ []) 0x0103 refl refl
      numbers-ArrayHolds (omega arith) (unfold type_size in omega arith) refl

-- The index that is the size, one past the last element, is let through.
one_past_the_end : at_of uint16_type two_numbers (pos 2) ≡ some 4
unfolding at_of value_at type_size
one_past_the_end = refl

get_message_type-names_example :
    (get_message_type (type_declaration bool_type) ≡ bool_type)
    × (read_name (type_string bool_type) ≡ some bool_type)
get_message_type-names_example = get_message_type-names bool_type
