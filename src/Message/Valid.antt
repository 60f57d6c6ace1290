-- ===== src/Message/Valid.antt =====
-- Well-formed messages, and what a copy of one looks like.
use cros.Common.{
  Bool, Option, [], false, int_max, length, negsuc, none, pos, replicate, some, suc, take, true,
  zero, ℕ, ℤ, ◌*◌, ◌++◌, ◌-◌, ◌<◌, ◌≡◌, ◌≤◌,
}
use cros.Mem.{Block, splice}
use cros.Message.{
  Data, Field, FieldHead, Fields, Kind, Message, Messages, Text, as_array, as_msg, as_msg_array,
  as_string, as_string_array, field, kind, message, nested, no_fields, no_messages, no_msg,
  null_array, null_field, null_message, opaque, plain, text, with_field, with_message,
}
use cros.Message.Copy.{count, join}

abbrev pub messages_length : Messages → ℕ
messages_length no_messages = 0
messages_length (null_message ms) = suc (messages_length ms)
messages_length (with_message m ms) = suc (messages_length ms)

-- A copy writes the MD5 text into a block of 33 bytes.
abbrev pub IsMd5 : Option (ℕ × Text) → Type 0
IsMd5 none = Unit {0}
IsMd5 (some (k, t)) = length t < 33

-- The flag and the type tell what the union holds.
abbrev pub HoldsKind : FieldHead → Kind → Bool → Type 0
HoldsKind h k arr = (kind h.type ≡ k) × (h.is_array ≡ arr)

-- An array of `len` entries has its elements in its block.
abbrev pub IsCounted : ℤ → Type 0
IsCounted (pos n) = Unit {0}
IsCounted (negsuc k) = ⊥

abbrev pub IsArray : FieldHead → ℕ → Type 0
IsArray h len =
    (count h.array_size ≤ count h.array_capacity)
    × (count h.array_size ≤ len)
    × IsCounted h.array_capacity

-- A block of numbers: it has its elements, and their bytes are counted by an `int`.
abbrev pub IsBytes : FieldHead → Block → Type 0
IsBytes h blk =
    (s : ℕ) × (h.size ≡ pos s)
    × (s * count h.array_size ≤ length blk)
    × (s * count h.array_size ≤ count h.array_capacity * s)
    × (s * count h.array_size ≤ int_max)
    × IsCounted h.array_size
    × IsCounted h.array_capacity

abbrev mutual
  pub IsMessage : Message → Type 0
  IsMessage (message fs md5 md) = AreFields fs × IsMd5 md5

  pub AreFields : Fields → Type 0
  AreFields no_fields = Unit {0}
  AreFields (null_field fs) = ⊥
  AreFields (with_field f fs) = IsField f × AreFields fs

  pub IsField : Field → Type 0
  IsField (field h d) = IsData h d

  pub IsData : FieldHead → Data → Type 0
  IsData h (opaque bytes) = HoldsKind h plain false
  IsData h (as_string t) = HoldsKind h text false
  IsData h no_msg = ⊥
  IsData h null_array = ⊥
  IsData h (as_msg m) = HoldsKind h nested false × IsMessage m
  IsData h (as_array blk) = HoldsKind h plain true × IsBytes h blk
  IsData h (as_string_array ts) = HoldsKind h text true × IsArray h (length ts)
  IsData h (as_msg_array ms) =
      HoldsKind h nested true × IsArray h (messages_length ms) × AreMessages ms

  pub AreMessages : Messages → Type 0
  AreMessages no_messages = Unit {0}
  AreMessages (null_message ms) = AreMessages ms
  AreMessages (with_message m ms) = IsMessage m × AreMessages ms

abbrev pub fresh_md5 : Option (ℕ × Text) → Option (ℕ × Text)
fresh_md5 none = none
fresh_md5 (some (k, t)) = some (33, t)

abbrev pub bytes_of : ℤ → ℕ → ℕ → Block → Block
bytes_of (pos s) room n blk = splice 0 (take (s * n) blk) (replicate (room * s) (some 0))
bytes_of (negsuc k) room n blk = []

-- The same content without definitions; beyond the elements of an array its block is zero.
unfoldable mutual
  pub tidy : Message → Message
  tidy (message fs md5 md) = message (tidy_fields fs) (fresh_md5 md5) none

  pub tidy_fields : Fields → Fields
  tidy_fields no_fields = no_fields
  tidy_fields (null_field fs) = null_field (tidy_fields fs)
  tidy_fields (with_field f fs) = with_field (tidy_field f) (tidy_fields fs)

  pub tidy_field : Field → Field
  tidy_field (field h d) = field h (tidy_data h d)

  pub tidy_data : FieldHead → Data → Data
  tidy_data h (as_msg m) = as_msg (tidy m)
  tidy_data h (as_array blk) =
      as_array (bytes_of h.size (count h.array_capacity) (count h.array_size) blk)
  tidy_data h (as_string_array ts) =
      as_string_array (
        take (count h.array_size) ts
        ++ replicate (count h.array_capacity - count h.array_size) none)
  tidy_data h (as_msg_array ms) =
      as_msg_array
        (join (tidy_first (count h.array_size) ms) (count h.array_capacity - count h.array_size))
  tidy_data h d = d

  pub tidy_first : ℕ → Messages → Messages
  tidy_first zero ms = no_messages
  tidy_first (suc n) no_messages = no_messages
  tidy_first (suc n) (null_message ms) = null_message (tidy_first n ms)
  tidy_first (suc n) (with_message m ms) = with_message (tidy m) (tidy_first n ms)
