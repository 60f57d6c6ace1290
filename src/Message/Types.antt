-- ===== src/Message/Types.antt =====
-- src/cros_message.c: the tables of the message types, between getMessageType and their sizes.
pub mod Names
use cros.Common.{Bool, Option, false, if◌then◌else◌, none, some, true, ℕ, ◌||◌}
use cros.Common.Decimal.{chars}
use cros.Common.Text.{same_text}
use cros.Message.{
  MessageType, Text, bool_type, byte_type, char_type, custom_type, duration_type, float32_type,
  float64_type, header_type, int16_type, int32_type, int64_type, int8_type, string_type, time_type,
  uint16_type, uint32_type, uint64_type, uint8_type,
}

unfoldable pub is_builtin_message_type : MessageType → Bool
is_builtin_message_type custom_type = false
is_builtin_message_type header_type = false
is_builtin_message_type ty = true

-- getMessageTypeSizeOf on a host with pointers of 8 bytes.
unfoldable pub type_size : MessageType → ℕ
type_size int8_type = 1
type_size uint8_type = 1
type_size int16_type = 2
type_size uint16_type = 2
type_size int32_type = 4
type_size uint32_type = 4
type_size int64_type = 8
type_size uint64_type = 8
type_size float32_type = 4
type_size float64_type = 8
type_size bool_type = 1
type_size string_type = 8
type_size time_type = 8
type_size duration_type = 8
type_size header_type = 8
type_size custom_type = 8
type_size char_type = 1
type_size byte_type = 1

-- A condition of getMessageType: strcmp with one name or the other.
unfoldable pub is_either : Text → Text → Text → Bool
is_either a b t = same_text t a || same_text t b

unfoldable pub get_message_type : Text → MessageType
get_message_type t =
    if is_either (chars "int8") (chars "std_msgs/Int8") t
    then int8_type
    else if is_either (chars "uint8") (chars "std_msgs/UInt8") t
    then uint8_type
    else if is_either (chars "int16") (chars "std_msgs/Int16") t
    then int16_type
    else if is_either (chars "uint16") (chars "std_msgs/UInt16") t
    then uint16_type
    else if is_either (chars "int32") (chars "std_msgs/Int32") t
    then int32_type
    else if is_either (chars "uint32") (chars "std_msgs/UInt32") t
    then uint32_type
    else if is_either (chars "int64") (chars "std_msgs/Int64") t
    then int64_type
    else if is_either (chars "uint64") (chars "std_msgs/UInt64") t
    then uint64_type
    else if is_either (chars "float32") (chars "std_msgs/Float32") t
    then float32_type
    else if is_either (chars "float64") (chars "std_msgs/Float64") t
    then float64_type
    else if is_either (chars "string") (chars "std_msgs/String") t
    then string_type
    else if is_either (chars "bool") (chars "std_msgs/Bool") t
    then bool_type
    else if is_either (chars "time") (chars "std_msgs/Time") t
    then time_type
    else if is_either (chars "duration") (chars "std_msgs/Duration") t
    then duration_type
    else if is_either (chars "char") (chars "std_msgs/Char") t
    then char_type
    else if is_either (chars "byte") (chars "std_msgs/Byte") t
    then byte_type
    else if is_either (chars "std_msgs/Header") (chars "Header") t
        || same_text t (chars "roslib/Header")
    then header_type
    else custom_type

-- getMessageTypeString; `none` is NULL.
unfoldable pub type_string : MessageType → Option Text
type_string int8_type = some (chars "std_msgs/UInt8")
type_string uint8_type = some (chars "std_msgs/UInt8")
type_string int16_type = some (chars "std_msgs/Int16")
type_string uint16_type = some (chars "std_msgs/UInt16")
type_string int32_type = some (chars "std_msgs/Int32")
type_string uint32_type = some (chars "std_msgs/UInt32")
type_string int64_type = some (chars "std_msgs/Int64")
type_string uint64_type = some (chars "std_msgs/UInt64")
type_string float32_type = some (chars "std_msgs/Float32")
type_string float64_type = some (chars "std_msgs/Float64")
type_string string_type = some (chars "std_msgs/String")
type_string bool_type = some (chars "std_msgs/Bool")
type_string time_type = some (chars "std_msgs/Time")
type_string duration_type = some (chars "std_msgs/Duration")
type_string char_type = some (chars "std_msgs/Char")
type_string byte_type = some (chars "std_msgs/Byte")
type_string header_type = some (chars "std_msgs/Header")
type_string custom_type = none

-- getMessageTypeDeclaration
unfoldable pub type_declaration : MessageType → Text
type_declaration int8_type = chars "int8"
type_declaration uint8_type = chars "uint8"
type_declaration int16_type = chars "int16"
type_declaration uint16_type = chars "uint16"
type_declaration int32_type = chars "int32"
type_declaration uint32_type = chars "uint32"
type_declaration int64_type = chars "int64"
type_declaration uint64_type = chars "uint64"
type_declaration float32_type = chars "float32"
type_declaration float64_type = chars "float64"
type_declaration string_type = chars "string"
type_declaration bool_type = chars "bool"
type_declaration time_type = chars "time"
type_declaration duration_type = chars "duration"
type_declaration char_type = chars "char"
type_declaration byte_type = chars "byte"
type_declaration header_type = chars "header"
type_declaration custom_type = chars "custom"

-- getMessageTypeDeclarationField and getMessageTypeDeclarationConst: the type as the definition
-- spells it, or else the name of the type.
unfoldable pub declared_type : Option Text → MessageType → Text
declared_type none ty = type_declaration ty
declared_type (some type_s) ty = type_s
