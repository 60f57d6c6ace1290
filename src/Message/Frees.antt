-- ===== src/Message/Frees.antt =====
-- Freeing the fields of messages and of their copies.
use cros.Common.{
  List, Option, ap, arith, length, length-append, length-take, le→leb, negsuc, none, pos, refl,
  replicate, some, suc, take, zero, ℕ, ℤ, ◌*◌, ◌++◌, ◌+◌, ◌-◌, ◌≡◌, ◌≤◌,
}
use cros.Mem.{Block, done, plenty, splice}
use cros.Message.{
  Data, Field, FieldHead, Fields, Message, Messages, Text, as_array, as_msg, as_msg_array,
  as_string, as_string_array, def_of, field, field_release, fields_free, free_fields, inside,
  md5_of, message, message_release, nested, no_fields, no_messages, no_msg, null_array, null_field,
  null_message, opaque, release_array, release_messages, with_field, with_message,
}
use cros.Message.Copy.{copy_without_def, count, join}
use cros.Message.Copies.{blank, copy_without_def-plenty, length-blank}
use cros.Mem.Blocks.{length-splice}
use cros.Message.Valid.{
  AreFields, AreMessages, IsArray, IsBytes, IsData, IsField, IsMd5, IsMessage, bytes_of, fresh_md5,
  messages_length, tidy, tidy_data, tidy_field, tidy_fields, tidy_first,
}

pub inside-done : (n : ℤ) (len : ℕ) → count n ≤ len → inside n len ≡ done tt
inside-done (pos n) len h = rw (le→leb n len h)
inside-done (negsuc k) len h = refl

release_array_of :
    (n : ℤ) (ms : Messages)
    → release_messages (count n) ms ≡ done tt
    → release_array nested n (as_msg_array ms) ≡ done tt
unfolding field_release
release_array_of (pos n) ms h = h
release_array_of (negsuc k) ms h = refl

mutual
  unfolding field_release

  field_release-done : (f : Field) → IsField f → field_release f ≡ done tt
  field_release-done (field h (opaque bytes)) ok = rw (field_release, ok.0, ok.1)
  field_release-done (field h (as_string t)) ok = rw (field_release, ok.0, ok.1)
  field_release-done (field h no_msg) ok = absurd ok
  field_release-done (field h null_array) ok = absurd ok
  field_release-done (field h (as_msg m)) ok =
      rw (field_release, ok.0.0, ok.0.1) (message_release-done m (ok.1))
  field_release-done (field h (as_array blk)) ok = rw (field_release, ok.0.0, ok.0.1)
  field_release-done (field h (as_string_array ts)) ok =
      rw (field_release, ok.0.0, ok.0.1) (inside-done h.array_size (length ts) (ok.1.1))
  field_release-done (field h (as_msg_array ms)) ok =
      rw (field_release, ok.0.0, ok.0.1)
        (release_array_of h.array_size ms
          (release_messages-done (count h.array_size) ms (ok.1.1) (ok.2)))

  release_messages-done :
      (n : ℕ) (ms : Messages)
      → n ≤ messages_length ms
      → AreMessages ms
      → release_messages n ms ≡ done tt
  release_messages-done zero ms h ok = refl
  release_messages-done (suc n) no_messages h ok = absurd (omega arith)
  release_messages-done (suc n) (null_message ms) h ok = release_messages-done n ms (omega arith) ok
  release_messages-done (suc n) (with_message m ms) h ok =
      rw (release_messages, message_release-done m (ok.0))
        (release_messages-done n ms (omega arith) (ok.1))

  pub free_fields-done : (fs : Fields) → AreFields fs → free_fields fs ≡ done tt
  free_fields-done no_fields ok = refl
  free_fields-done (null_field fs) ok = absurd ok
  free_fields-done (with_field f fs) ok =
      rw (free_fields, field_release-done f (ok.0)) (free_fields-done fs (ok.1))

  message_release-done : (m : Message) → IsMessage m → message_release m ≡ done tt
  message_release-done (message fs md5 md) ok = free_fields-done fs (ok.0)

-- The length of an array in its new block.
length-join : (ms : Messages) (k : ℕ) → messages_length (join ms k) ≡ messages_length ms + k
length-join no_messages zero = refl
length-join no_messages (suc k) = omega (arith, length-join no_messages k)
length-join (null_message ms) k = omega (arith, length-join ms k)
length-join (with_message m ms) k = omega (arith, length-join ms k)

AreMessages-join : (ms : Messages) (k : ℕ) → AreMessages ms → AreMessages (join ms k)
AreMessages-join no_messages zero h = tt
AreMessages-join no_messages (suc k) h = AreMessages-join no_messages k tt
AreMessages-join (null_message ms) k h = AreMessages-join ms k h
AreMessages-join (with_message m ms) k h = (h.0, AreMessages-join ms k (h.1))

length-tidy_first :
    (n : ℕ) (ms : Messages) → n ≤ messages_length ms → messages_length (tidy_first n ms) ≡ n
unfolding tidy
length-tidy_first zero ms h = refl
length-tidy_first (suc n) no_messages h = absurd (omega arith)
length-tidy_first (suc n) (null_message ms) h = ap suc (length-tidy_first n ms (omega arith))
length-tidy_first (suc n) (with_message m ms) h = ap suc (length-tidy_first n ms (omega arith))

fresh-IsMd5 : (md5 : Option (ℕ × Text)) → IsMd5 md5 → IsMd5 (fresh_md5 md5)
fresh-IsMd5 none h = tt
fresh-IsMd5 (some (k, t)) h = h

texts-IsArray :
    (h : FieldHead) (ts : List (Option Text))
    → IsArray h (length ts)
    → IsArray h (
        length (
          take (count h.array_size) ts
          ++ replicate (count h.array_capacity - count h.array_size) none))
texts-IsArray h ts (room, there, counted) =
    let rest : List (Option Text) = replicate (count h.array_capacity - count h.array_size) none in
    (
      room,
      omega (
        arith,
        length-append (take (count h.array_size) ts) rest,
        length-take (count h.array_size) ts,
      ),
      counted,
    )

length-filled :
    (k room : ℕ) (blk : Block)
    → k ≤ length blk
    → k ≤ room
    → k ≤ length (splice 0 (take k blk) (blank room))
length-filled k room blk src dst =
    let fits : 0 + length (take k blk) ≤ length (blank room) =
      omega (arith, length-take k blk, length-blank room) in
    omega (arith, length-splice 0 (take k blk) (blank room) fits, length-blank room)

bytes_of-IsBytes :
    (h : FieldHead) (blk : Block)
    → IsBytes h blk
    → IsBytes h (bytes_of h.size (count h.array_capacity) (count h.array_size) blk)
bytes_of-IsBytes h blk (s, e, src, dst, small, counted, room) = (
  s,
  e,
  rw e (length-filled (s * count h.array_size) (count h.array_capacity * s) blk src dst),
  dst,
  small,
  counted,
  room,
)

mutual
  unfolding tidy

  tidy_data-IsData : (h : FieldHead) (d : Data) → IsData h d → IsData h (tidy_data h d)
  tidy_data-IsData h (opaque bytes) ok = ok
  tidy_data-IsData h (as_string t) ok = ok
  tidy_data-IsData h no_msg ok = absurd ok
  tidy_data-IsData h null_array ok = absurd ok
  tidy_data-IsData h (as_msg m) ok = (ok.0, tidy-IsMessage m (ok.1))
  tidy_data-IsData h (as_array blk) ok = (ok.0, bytes_of-IsBytes h blk (ok.1))
  tidy_data-IsData h (as_string_array ts) ok = (ok.0, texts-IsArray h ts (ok.1))
  tidy_data-IsData h (as_msg_array ms) ok = (
    ok.0,
    (
      ok.1.0,
      omega (
        arith,
        length-join (tidy_first (count h.array_size) ms)
            (count h.array_capacity - count h.array_size),
        length-tidy_first (count h.array_size) ms (ok.1.1),
      ),
      ok.1.2,
    ),
    AreMessages-join (tidy_first (count h.array_size) ms)
        (count h.array_capacity - count h.array_size)
        (tidy_first-AreMessages (count h.array_size) ms (ok.2)),
  )

  tidy_first-AreMessages : (n : ℕ) (ms : Messages) → AreMessages ms → AreMessages (tidy_first n ms)
  tidy_first-AreMessages zero ms ok = tt
  tidy_first-AreMessages (suc n) no_messages ok = tt
  tidy_first-AreMessages (suc n) (null_message ms) ok = tidy_first-AreMessages n ms ok
  tidy_first-AreMessages (suc n) (with_message m ms) ok =
      (tidy-IsMessage m (ok.0), tidy_first-AreMessages n ms (ok.1))

  tidy_field-IsField : (f : Field) → IsField f → IsField (tidy_field f)
  tidy_field-IsField (field h d) ok = tidy_data-IsData h d ok

  pub tidy_fields-AreFields : (fs : Fields) → AreFields fs → AreFields (tidy_fields fs)
  tidy_fields-AreFields no_fields ok = tt
  tidy_fields-AreFields (null_field fs) ok = absurd ok
  tidy_fields-AreFields (with_field f fs) ok =
      (tidy_field-IsField f (ok.0), tidy_fields-AreFields fs (ok.1))

  tidy-IsMessage : (m : Message) → IsMessage m → IsMessage (tidy m)
  tidy-IsMessage (message fs md5 md) ok = (tidy_fields-AreFields fs (ok.0), fresh-IsMd5 md5 (ok.1))

-- cRosMessageFieldsFree of a well-formed message returns, with no fields and the MD5 text and the
-- definition left.
pub fields_free-done :
    (m : Message) → IsMessage m → fields_free m ≡ done (message no_fields (md5_of m) (def_of m))
unfolding fields_free
fields_free-done (message fs md5 md) h = rw (free_fields-done fs (h.0))

-- With memory for every request, cRosMessageCopyWithoutDef of a well-formed message returns a
-- well-formed message, and cRosMessageFieldsFree then returns for the original and for the copy
-- alike, with no fields and the MD5 text and the definition left in each.
pub copy-free :
    (m : Message)
    → IsMessage m
    → (c : Message) × (copy_without_def plenty m ≡ done (some c, plenty))
      × IsMessage c
      × (fields_free m ≡ done (message no_fields (md5_of m) (def_of m)))
      × (fields_free c ≡ done (message no_fields (md5_of c) (def_of c)))
copy-free m h = (
  tidy m,
  copy_without_def-plenty m h,
  tidy-IsMessage m h,
  fields_free-done m h,
  fields_free-done (tidy m) (tidy-IsMessage m h),
)
