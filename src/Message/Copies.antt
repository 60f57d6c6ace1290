-- ===== src/Message/Copies.antt =====
-- Copies of well-formed messages.
use cros.Common.{
  List, Option, [], ap, arith, drop, int_max, length, length-take, le→leb, lt→ltb, negsuc, none,
  pos, refl, replicate, some, suc, take, true, zero, ℕ, ℤ, ◌*◌, ◌+◌, ◌<◌, ◌∷◌, ◌≡◌, ◌≤◌,
}
use cros.Mem.{Block, done, plenty, read, splice, write_cells, ◌>>=◌}
use cros.Message.{
  Data, Field, FieldHead, Fields, Message, MessageDef, Messages, Text, as_array, as_msg,
  as_msg_array, as_string, as_string_array, def_of, field, fields_of, free_fields, md5_of, message,
  no_fields, no_messages, no_msg, null_array, null_field, null_message, opaque, with_field,
  with_message,
}
use cros.Message.Copy.{
  copy_bytes, copy_data, copy_fields, copy_head, copy_md5, copy_messages, copy_text, copy_texts,
  copy_without_def, count, field_copy, fields_copy, fields_copy_with, messages_in, texts_in,
}
use cros.Message.Valid.{
  AreFields, AreMessages, IsArray, IsBytes, IsCounted, IsData, IsField, IsMd5, IsMessage, bytes_of,
  fresh_md5, messages_length, tidy, tidy_data, tidy_field, tidy_fields, tidy_first,
}

copy_text-plenty : (t : Option Text) → copy_text plenty t ≡ (some t, plenty)
copy_text-plenty none = refl
copy_text-plenty (some t) = refl

copy_head-plenty : (h : FieldHead) → copy_head plenty h ≡ (some h, plenty)
unfolding copy_head
copy_head-plenty h = rw (copy_text-plenty h.type_s, copy_text-plenty h.name) refl

copy_texts-plenty :
    (n : ℕ) (ts : List (Option Text))
    → n ≤ length ts
    → copy_texts plenty n ts ≡ done (some (take n ts), plenty)
unfolding copy_texts
copy_texts-plenty zero ts h = refl
copy_texts-plenty (suc n) [] h = absurd (omega arith)
copy_texts-plenty (suc n) (none ∷ ts) h = rw (copy_texts-plenty n ts (omega arith))
copy_texts-plenty (suc n) (some t ∷ ts) h = rw (copy_texts-plenty n ts (omega arith))

drop-zero : (blk : Block) → drop 0 blk ≡ blk
drop-zero [] = refl
drop-zero (c ∷ cs) = refl

abbrev pub blank : ℕ → Block
blank room = replicate room (some 0)

pub length-blank : (room : ℕ) → length (blank room) ≡ room
length-blank zero = refl
length-blank (suc n) = ap suc (length-blank n)

copy_cells :
    (k room : ℕ) (blk : Block)
    → k ≤ length blk
    → k ≤ room
    → (read blk 0 k >>= λ cells. write_cells (replicate room (some 0)) 0 cells)
      ≡ done (splice 0 (take k blk) (replicate room (some 0)))
unfolding read write_cells
copy_cells k room blk src dst =
    let fits : 0 + length (take k blk) ≤ length (blank room) =
      omega (arith, length-take k blk, length-blank room) in
    rw (le→leb (0 + k) (length blk) (omega arith), drop-zero blk, le→leb _ _ fits)

copy_bytes-counted :
    (s room : ℕ) (n : ℤ) (blk : Block)
    → IsCounted n
    → s * count n ≤ length blk
    → s * count n ≤ room * s
    → s * count n ≤ int_max
    → copy_bytes (pos s) room n blk ≡ done (bytes_of (pos s) room (count n) blk)
unfolding copy_bytes
copy_bytes-counted s room (pos n) blk counted src dst small =
    rw (le→leb (s * n) int_max small) (copy_cells (s * n) (room * s) blk src dst)
copy_bytes-counted s room (negsuc k) blk counted src dst small = absurd counted

copy_bytes-plenty :
    (h : FieldHead) (blk : Block)
    → IsBytes h blk
    → copy_bytes h.size (count h.array_capacity) h.array_size blk
      ≡ done (bytes_of h.size (count h.array_capacity) (count h.array_size) blk)
copy_bytes-plenty h blk (s, e, src, dst, small, counted, room) =
    rw e (copy_bytes-counted s (count h.array_capacity) h.array_size blk counted src dst small)

copy_md5-fresh :
    (md5 : Option (ℕ × Text))
    → IsMd5 md5
    → copy_md5 plenty (some (33, [])) md5 ≡ done (some (fresh_md5 md5), plenty)
unfolding copy_md5
copy_md5-fresh none h = refl
copy_md5-fresh (some (k, t)) h = rw (lt→ltb (length t) 33 h)

module _ (h : FieldHead) where
  copy_array-plenty :
      (ts : List (Option Text))
      → IsArray h (length ts)
      → (copy_texts plenty (count h.array_size) ts >>= λ r.
          texts_in (count h.array_capacity) (count h.array_size) r)
        ≡ done (some (tidy_data h (as_string_array ts)), plenty)
  unfolding tidy
  copy_array-plenty ts (room, there, counted) =
      rw (copy_texts-plenty (count h.array_size) ts there, le→leb _ _ room)

  messages_in-plenty :
      (ms : Messages)
      → count h.array_size ≤ count h.array_capacity
      → messages_in
          (count h.array_capacity)
          (count h.array_size)
          (some (tidy_first (count h.array_size) ms), plenty)
        ≡ done (some (tidy_data h (as_msg_array ms)), plenty)
  unfolding tidy
  messages_in-plenty ms room = rw (le→leb _ _ room)

mutual
  unfolding field_copy fields_copy_with tidy free_fields

  field_copy-tidy :
      (f : Field) → IsField f → field_copy plenty f ≡ done (some (tidy_field f), plenty)
  field_copy-tidy (field h d) ok =
      rw (field_copy, copy_head-plenty h, copy_head-plenty h, copy_data-tidy h d ok)

  copy_data-tidy :
      (h : FieldHead) (d : Data)
      → IsData h d
      → copy_data plenty h d ≡ done (some (tidy_data h d), plenty)
  copy_data-tidy h (opaque bytes) ok = rw (copy_data, ok.0, ok.1)
  copy_data-tidy h (as_string t) ok =
      rw (copy_data, ok.0, ok.1, copy_text-plenty t, copy_text-plenty t)
  copy_data-tidy h no_msg ok = absurd ok
  copy_data-tidy h null_array ok = absurd ok
  copy_data-tidy h (as_msg m) ok = rw (copy_data, ok.0.0, ok.0.1, copy_without_def-tidy m (ok.1))
  copy_data-tidy h (as_array blk) ok =
      rw (copy_data, ok.0.0, ok.0.1, copy_bytes-plenty h blk (ok.1))
  copy_data-tidy h (as_string_array ts) ok =
      rw (copy_data, ok.0.0, ok.0.1) (copy_array-plenty h ts (ok.1))
  copy_data-tidy h (as_msg_array ms) ok =
      rw (copy_data, ok.0.0, ok.0.1, copy_messages-tidy (count h.array_size) ms (ok.1.1) (ok.2))
        (messages_in-plenty h ms (ok.1.0))

  copy_messages-tidy :
      (n : ℕ) (ms : Messages)
      → n ≤ messages_length ms
      → AreMessages ms
      → copy_messages plenty n ms ≡ done (some (tidy_first n ms), plenty)
  copy_messages-tidy zero ms h ok = refl
  copy_messages-tidy (suc n) no_messages h ok = absurd (omega arith)
  copy_messages-tidy (suc n) (null_message ms) h ok =
      rw (copy_messages, copy_messages-tidy n ms (omega arith) ok)
  copy_messages-tidy (suc n) (with_message m ms) h ok =
      rw (
        copy_messages,
        copy_without_def-tidy m (ok.0),
        copy_messages-tidy n ms (omega arith) (ok.1),
      )

  copy_fields-tidy :
      (fs : Fields) → AreFields fs → copy_fields plenty fs ≡ done (true, tidy_fields fs, plenty)
  copy_fields-tidy no_fields ok = refl
  copy_fields-tidy (null_field fs) ok = absurd ok
  copy_fields-tidy (with_field f fs) ok =
      rw (copy_fields, field_copy-tidy f (ok.0), copy_fields-tidy fs (ok.1))

  copy_without_def-tidy :
      (m : Message) → IsMessage m → copy_without_def plenty m ≡ done (some (tidy m), plenty)
  copy_without_def-tidy (message fs md5 md) ok =
      rw (copy_without_def, copy_md5-fresh md5 (ok.1), copy_fields-tidy fs (ok.0))

-- strcpy stays inside of the destination's block.
abbrev pub Md5Fits : Option (ℕ × Text) → Option (ℕ × Text) → Type 0
Md5Fits (some (size, old)) (some (k, t)) = length t < size
Md5Fits dst src = Unit {0}

-- The MD5 text of the destination after a copy.
abbrev pub new_md5 : Option (ℕ × Text) → Option (ℕ × Text) → Option (ℕ × Text)
new_md5 dst none = none
new_md5 (some (size, old)) (some (k, t)) = some (size, t)
new_md5 none (some (k, t)) = some (length t + 1, t)

copy_md5-new :
    (dst src : Option (ℕ × Text))
    → Md5Fits dst src
    → copy_md5 plenty dst src ≡ done (some (new_md5 dst src), plenty)
unfolding copy_md5
copy_md5-new none none h = refl
copy_md5-new (some d) none h = refl
copy_md5-new none (some (k, t)) h = refl
copy_md5-new (some (size, old)) (some (k, t)) h = rw (lt→ltb (length t) size h)

-- With memory for every request, cRosMessageFieldsCopy of a well-formed message onto one whose fields
-- can be freed and whose block for the MD5 text is large enough returns 0, and the destination then
-- has fields of the same content, in arrays of the same capacity, and the same MD5 text, and
-- keeps its definition.
pub fields_copy-plenty :
    (dst : Message) (fs : Fields) (md5 : Option (ℕ × Text)) (md : Option MessageDef)
    → AreFields fs
    → Md5Fits (md5_of dst) md5
    → free_fields (fields_of dst) ≡ done tt
    → fields_copy plenty dst (message fs md5 md)
      ≡ done (pos 0, message (tidy_fields fs) (new_md5 (md5_of dst) md5) (def_of dst), plenty)
unfolding fields_copy fields_copy_with
fields_copy-plenty dst fs md5 md ok fits frees =
    rw (copy_md5-new (md5_of dst) md5 fits, frees, copy_fields-tidy fs ok)

-- With memory for every request, cRosMessageCopyWithoutDef of a well-formed message gives a message
-- of the same content.
pub copy_without_def-plenty :
    (m : Message) → IsMessage m → copy_without_def plenty m ≡ done (some (tidy m), plenty)
copy_without_def-plenty m h = copy_without_def-tidy m h
