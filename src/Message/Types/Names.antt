-- ===== src/Message/Types/Names.antt =====
-- The names of the message types against getMessageType.
use cros.Common.{Option, none, refl, some, ◌≡◌}
use cros.Common.Text.{same_text}
use cros.Message.{
  MessageType, Text, bool_type, byte_type, char_type, custom_type, duration_type, float32_type,
  float64_type, header_type, int16_type, int32_type, int64_type, int8_type, string_type, time_type,
  uint16_type, uint32_type, uint64_type, uint8_type,
}
use cros.Message.Types.{get_message_type, is_either, type_declaration, type_string}

-- What the declared name of a type is read as.
abbrev declared_as : MessageType → MessageType
declared_as header_type = custom_type
declared_as ty = ty

-- What the name in std_msgs is read as, if there is one.
abbrev known_as : MessageType → Option MessageType
known_as int8_type = some uint8_type
known_as custom_type = none
known_as ty = some ty

abbrev pub read_name : Option Text → Option MessageType
read_name none = none
read_name (some name) = some (get_message_type name)

get_message_type-declaration :
    (ty : MessageType) → get_message_type (type_declaration ty) ≡ declared_as ty
unfolding get_message_type type_declaration is_either same_text
get_message_type-declaration int8_type = refl
get_message_type-declaration uint8_type = refl
get_message_type-declaration int16_type = refl
get_message_type-declaration uint16_type = refl
get_message_type-declaration int32_type = refl
get_message_type-declaration uint32_type = refl
get_message_type-declaration int64_type = refl
get_message_type-declaration uint64_type = refl
get_message_type-declaration float32_type = refl
get_message_type-declaration float64_type = refl
get_message_type-declaration string_type = refl
get_message_type-declaration bool_type = refl
get_message_type-declaration time_type = refl
get_message_type-declaration duration_type = refl
get_message_type-declaration char_type = refl
get_message_type-declaration byte_type = refl
get_message_type-declaration header_type = refl
get_message_type-declaration custom_type = refl

get_message_type-string : (ty : MessageType) → read_name (type_string ty) ≡ known_as ty
unfolding get_message_type type_string is_either same_text
get_message_type-string int8_type = refl
get_message_type-string uint8_type = refl
get_message_type-string int16_type = refl
get_message_type-string uint16_type = refl
get_message_type-string int32_type = refl
get_message_type-string uint32_type = refl
get_message_type-string int64_type = refl
get_message_type-string uint64_type = refl
get_message_type-string float32_type = refl
get_message_type-string float64_type = refl
get_message_type-string string_type = refl
get_message_type-string bool_type = refl
get_message_type-string time_type = refl
get_message_type-string duration_type = refl
get_message_type-string char_type = refl
get_message_type-string byte_type = refl
get_message_type-string header_type = refl
get_message_type-string custom_type = refl

-- Reading the names of a message type back. getMessageTypeDeclaration gives a name that
-- getMessageType reads as the same type, but for the header, whose name is read as a custom type;
-- getMessageTypeString gives a name that is read as the same type, but for int8, whose name is that
-- of uint8, and for a custom type, which has none.
pub get_message_type-names :
    (ty : MessageType)
    → (get_message_type (type_declaration ty) ≡ declared_as ty)
      × (read_name (type_string ty) ≡ known_as ty)
get_message_type-names ty = (get_message_type-declaration ty, get_message_type-string ty)
