-- ===== src/Message/Deserialize/Trees.antt =====
-- The recursion over a message and the one that it is read into.
use cros.Common.{
  List, ap, append_assoc, ap₂, arith, false, refl, subst, suc, sym, zero, ℕ, ◌++◌, ◌∙◌, ◌≡◌, ◌≤◌,
}
use cros.Mem.{Run, done, ◌>>=◌}
use cros.Message.{
  Field, FieldHead, Fields, Message, Messages, as_array, as_msg, as_msg_array, as_string,
  as_string_array, field, kind, message, nested, no_fields, opaque, with_field, with_message,
}
use cros.Message.Copy.{count}
use cros.Message.Valid.{HoldsKind}
use cros.Message.Serialize.Wire.{
  CanSend, FieldCanSend, FieldsCanSend, MessagesCanSend, wire, wire_field, wire_fields,
  wire_messages,
}
use cros.Message.Deserialize.{
  Builder, Place, deserialize, first_place, next_place, read_each, read_field, read_fields,
  read_single,
}
use cros.Message.Deserialize.Reads.{Input}
use cros.Message.Deserialize.Cursor.{At, At-with, Got, Got-then}
use cros.Message.Deserialize.Leaves.{numbers-Got, opaque-Got, string-Got}
use cros.Message.Deserialize.TextLeaves.{texts_field-Got}
use cros.Message.Deserialize.Matches.{
  FieldMatch, FieldsMatch, Matches, MessagesMatch, SameShape, depth, field_depth, fields_depth,
  messages_depth,
}
use cros.Message.Deserialize.Nested.{messages_field-Got}
use cros.Message.Deserialize.Numbers.{SentAs, wire_single}
use cros.Message.Deserialize.Shapes.{by_bytes, each-Got, reads_single}

-- A nested message as a field.
nested_field-Got :
    (build : Builder) (rec : Message → Input → Run (Message × Input)) (place : Place)
    (g h : FieldHead) (rest : List ℕ) (l m : Message) (i : Input)
    → SameShape g h
    → HoldsKind h nested false
    → (At (wire m ++ rest) i → Got (λ k. wire k ≡ wire m) rest (rec l i))
    → At (wire_field (field h (as_msg m)) ++ rest) i
    → Got
        (SentAs (wire_field (field h (as_msg m))))
        rest
        (read_field build rec place (field g (as_msg l)) i)
unfolding read_single wire
nested_field-Got build rec place g h rest l m i shape ok one ready =
    by_bytes {old = wire m} (sym (wire_single h (as_msg m) (ok.1))) ready (λ r.
      subst (Got (SentAs (wire m)) rest)
        (sym (
          reads_single build rec place g (as_msg l) i nested (shape.1 ∙ ok.1)
            (ap kind shape.0 ∙ ok.0)))
        (Got-then {f = λ k j. done (field g (as_msg k), j)} (one r) (λ k j same s. record {
          value = field g (as_msg k);
          input = j;
          returns = refl;
          good = wire_single g (as_msg k) (shape.1 ∙ ok.1) ∙ same;
          ready = s;
        })))

module _ (build : Builder) where
  mutual
    unfolding wire deserialize read_fields depth read_each

    pub message-Got :
        (l m : Message) (fuel : ℕ) (rest : List ℕ) (i : Input)
        → depth l ≤ fuel
        → Matches l m
        → CanSend m
        → At (wire m ++ rest) i
        → Got (λ k. wire k ≡ wire m) rest (deserialize build fuel l i)
    message-Got (message gs md5 md) (message fs md5' md') zero rest i deep match ok ready =
        absurd (omega arith)
    message-Got (message gs md5 md) (message fs md5' md') (suc fuel) rest i deep match ok ready =
        Got-then {f = λ hs j. done (message hs md5 md, j)}
          (fields-Got gs fs fuel (first_place md) rest (record i { code = 0 }) (omega arith) match
            ok (At-with ready refl ready.memory))
          (λ hs j same r. record {
            value = message hs md5 md;
            input = j;
            returns = refl;
            good = same;
            ready = r;
          })

    fields-Got :
        (gs fs : Fields) (fuel : ℕ) (place : Place) (rest : List ℕ) (i : Input)
        → fields_depth gs ≤ fuel
        → FieldsMatch gs fs
        → FieldsCanSend fs
        → At (wire_fields fs ++ rest) i
        → Got
            (λ hs. wire_fields hs ≡ wire_fields fs)
            rest
            (read_fields build (λ m j. deserialize build fuel m j) place gs i)
    fields-Got no_fields no_fields fuel place rest i deep match ok ready = record {
      value = no_fields;
      input = i;
      returns = refl;
      good = refl;
      ready = ready;
    }
    fields-Got (with_field g gs) (with_field f fs) fuel place rest i deep match ok ready =
        rw (read_fields, ready.no_error)
          (Got-then
            {f = λ h j.
              read_fields build (λ m k. deserialize build fuel m k) (next_place place) gs j >>= λ s.
              done (with_field h (s.0), s.1)}
            (field-Got g f fuel place (wire_fields fs ++ rest) i (omega arith) (match.0) (ok.0) (
              subst (λ (l : List ℕ). At l i) (append_assoc (wire_field f) (wire_fields fs) rest)
                ready))
            (λ h j same r.
              Got-then {f = λ hs k. done (with_field h hs, k)}
                (fields-Got gs fs fuel (next_place place) rest j (omega arith) (match.1) (ok.1) r)
                (λ hs k same' s. record {
                  value = with_field h hs;
                  input = k;
                  returns = refl;
                  good = ap₂ (λ (x y : List ℕ). x ++ y) same same';
                  ready = s;
                })))
    fields-Got gs fs fuel place rest i deep match ok ready = absurd match

    field-Got :
        (g f : Field) (fuel : ℕ) (place : Place) (rest : List ℕ) (i : Input)
        → field_depth g ≤ fuel
        → FieldMatch g f
        → FieldCanSend f
        → At (wire_field f ++ rest) i
        → Got
            (SentAs (wire_field f))
            rest
            (read_field build (λ m j. deserialize build fuel m j) place g i)
    field-Got (field g (opaque old)) (field h (opaque bytes)) fuel place rest i deep match ok
          ready =
        opaque-Got build (λ m j. deserialize build fuel m j) place g h (match.0) rest i old bytes ok
          ready
    field-Got (field g (as_string u)) (field h (as_string t)) fuel place rest i deep match ok
          ready =
        string-Got build (λ m j. deserialize build fuel m j) place g h (match.0) rest i u t ok
          (match.1) ready
    field-Got (field g (as_msg l)) (field h (as_msg m)) fuel place rest i deep match ok ready =
        nested_field-Got build (λ m j. deserialize build fuel m j) place g h rest l m i (match.0)
          (ok.0) (λ r. message-Got l m fuel rest i deep (match.1) (ok.1) r) ready
    field-Got (field g (as_array blk)) (field h (as_array sent)) fuel place rest i deep match ok
          ready =
        numbers-Got build (λ m j. deserialize build fuel m j) place g h (match.0) rest i blk sent ok
          (match.1) ready
    field-Got (field g (as_string_array us)) (field h (as_string_array ts)) fuel place rest i deep
          match ok ready =
        texts_field-Got build (λ m j. deserialize build fuel m j) place g h (match.0) rest i us ts
          ok (match.1) ready
    field-Got (field g (as_msg_array ls)) (field h (as_msg_array ms)) fuel place rest i deep match
          ok ready =
        messages_field-Got build (λ m j. deserialize build fuel m j) place g h (match.0) rest ls ms
          i ok (match.1.0) (match.1.1)
          (λ j r. messages-Got ls ms (count h.array_size) fuel rest j deep (match.1.2) (ok.3) r)
          ready
    field-Got (field g c) (field h d) fuel place rest i deep match ok ready = absurd (match.1)

    messages-Got :
        (ls ms : Messages) (n fuel : ℕ) (rest : List ℕ) (i : Input)
        → messages_depth ls ≤ fuel
        → MessagesMatch ls n ms
        → MessagesCanSend ms
        → At (wire_messages n ms ++ rest) i
        → Got
            (λ ks. wire_messages n ks ≡ wire_messages n ms)
            rest
            (read_each (λ m j. deserialize build fuel m j) n ls i)
    messages-Got ls ms zero fuel rest i deep match ok ready = record {
      value = ls;
      input = i;
      returns = refl;
      good = refl;
      ready = ready;
    }
    messages-Got (with_message l ls) (with_message m ms) (suc n) fuel rest i deep match ok ready =
        each-Got (λ m j. deserialize build fuel m j) (wire_messages n ms) rest l ls n (wire m) i
          ready.no_error
          (message-Got l m fuel (wire_messages n ms ++ rest) i (omega arith) (match.0) (ok.0) (
            subst (λ (l : List ℕ). At l i) (append_assoc (wire m) (wire_messages n ms) rest) ready))
          (λ j r. messages-Got ls ms n fuel rest j (omega arith) (match.1) (ok.1) r)
    messages-Got ls ms n fuel rest i deep match ok ready = absurd match
