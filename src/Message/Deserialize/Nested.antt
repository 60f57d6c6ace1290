-- ===== src/Message/Deserialize/Nested.antt =====
-- Arrays of nested messages that have as many elements as are received.
use cros.Common.{
  Bool-cases, List, [], ap, append_assoc, arith, false, inl, inr, int_max, le→leb, none, refl, some,
  subst, sym, true, ℕ, ℤ, ◌++◌, ◌-◌, ◌∙◌, ◌≡◌, ◌≤◌,
}
use cros.DynBuffer.{le_bytes}
use cros.Mem.{Run, done, fault, ◌>>=◌}
use cros.Message.{Data, FieldHead, Message, Messages, as_msg_array, field, kind, nested}
use cros.Message.Copy.{count}
use cros.Message.Deserialize.{
  Builder, Place, adapt_length, grow_messages, read_array, read_each, read_field, read_messages,
  shrink, shrink_to,
}
use cros.Message.Deserialize.Reads.{Input}
use cros.Message.Deserialize.Cursor.{At, Got, Got-then, Got-weaken}
use cros.Message.Deserialize.Matches.{SameShape}
use cros.Message.Deserialize.Numbers.{SentAs, read_number-Got, wire_fixed, wire_variable}
use cros.Message.Arrays.{is_variable}
use cros.Message.Serialize.Wire.{DataCanSend, wire, wire_count, wire_field, wire_messages}
use cros.Message.Deserialize.Leaves.{array_variable, fixed_variable, same_variable}
use cros.Message.Deserialize.Shapes.{by_bytes, reads_array}

count-variable :
    (g : FieldHead) → is_variable g ≡ true → wire_count g ≡ le_bytes 4 (count g.array_size)
unfolding wire_count
count-variable g e = rw e refl

count-fixed : (g : FieldHead) → is_variable g ≡ false → wire_count g ≡ []
unfolding wire_count
count-fixed g e = rw e refl

module _ (build : Builder) (place : Place) (g : FieldHead) where
  adapt-Got :
      (d : Data) (rest : List ℕ) (i : Input)
      → count g.array_size ≤ int_max
      → At (le_bytes 4 (count g.array_size) ++ rest) i
      → Got (λ f. f ≡ field g d) rest (adapt_length build place (field g d) i)
  unfolding adapt_length grow_messages shrink_to shrink
  adapt-Got d rest i small ready =
      let none_more : count g.array_size - count g.array_size ≡ 0 = omega arith in
      Got-then
        {f = λ x j. elim x [
          | none ↦ fault
          | some n ↦
              grow_messages build (n - count g.array_size) g.type place (field g d) j >>= λ r.
              shrink_to n (r.0) >>= λ f. done (f, r.1)
        ]}
        (read_number-Got i (count g.array_size) rest (omega arith) ready)
        (λ x j e r.
          rw (e, none_more, le→leb (count g.array_size) int_max small, none_more)
            (record { value = field g d; input = j; returns = refl; good = refl; ready = r }))

module _ (build : Builder) (rec : Message → Input → Run (Message × Input)) (place : Place)
    (g h : FieldHead) (shape : SameShape g h) (rest : List ℕ) where
  -- The elements of the array.
  elements-Got :
      (ls : Messages) (new : List ℕ) (i : Input)
      → Got
          (λ ks. wire_messages (count g.array_size) ks ≡ new)
          rest
          (read_each rec (count g.array_size) ls i)
      → Got
          (λ f. wire_field f ≡ wire_count g ++ new)
          rest
          (read_messages rec (field g (as_msg_array ls)) i)
  unfolding read_messages wire
  elements-Got ls new i s =
      Got-then {f = λ ks j. done (field g (as_msg_array ks), j)} s (λ ks j same r. record {
        value = field g (as_msg_array ks);
        input = j;
        returns = refl;
        good = ap (λ (l : List ℕ). wire_count g ++ l) same;
        ready = r;
      })

  -- The field, when its elements are read as they were sent.
  pub messages_field-Got :
      (ls ms : Messages) (i : Input)
      → DataCanSend h (as_msg_array ms)
      → g.array_size ≡ h.array_size
      → count h.array_size ≤ int_max
      → ((j : Input)
          → At (wire_messages (count h.array_size) ms ++ rest) j
          → Got
              (λ ks. wire_messages (count h.array_size) ks ≡ wire_messages (count h.array_size) ms)
              rest
              (read_each rec (count h.array_size) ls j))
      → At (wire_field (field h (as_msg_array ms)) ++ rest) i
      → Got
          (SentAs (wire_field (field h (as_msg_array ms))))
          rest
          (read_field build rec place (field g (as_msg_array ls)) i)
  unfolding wire read_array
  messages_field-Got ls ms i ok same small each ready = elim (Bool-cases g.is_fixed_array) [
    | inl fixed ↦
        let not_variable : is_variable g ≡ false = fixed_variable g fixed in
        by_bytes {old = new}
          (sym (wire_fixed h (as_msg_array ms) (sym (same_variable g h shape) ∙ not_variable)))
          ready
          (λ r. subst (Got (SentAs new) rest) (sym (nested_array ∙ (simp (fixed)))) (
            Got-weaken {Fine = SentAs new}
              (λ f sent. sent ∙ ap (λ (l : List ℕ). l ++ new) (count-fixed g not_variable))
              (elements-Got ls new i (each_of i r))))
    | inr not_fixed ↦
        let variable : is_variable g ≡ true = array_variable g array not_fixed in
        by_bytes {old = le_bytes 4 (count g.array_size) ++ new}
          (ap (λ (z : ℤ). le_bytes 4 (count z) ++ new) same
            ∙ sym (wire_variable h (as_msg_array ms) (sym (same_variable g h shape) ∙ variable)))
          ready
          (λ r.
            subst (Got (SentAs (le_bytes 4 (count g.array_size) ++ new)) rest)
              (sym (nested_array ∙ (simp (not_fixed))))
              (Got-then {f = λ f j. read_messages rec f j}
                (adapt-Got build place g (as_msg_array ls) (new ++ rest) i (rw same small) (
                  subst (λ (l : List ℕ). At l i)
                    (append_assoc (le_bytes 4 (count g.array_size)) new rest) r))
                (λ f j e s. rw e (
                  Got-weaken {Fine = SentAs (le_bytes 4 (count g.array_size) ++ new)}
                    (λ k sent. sent ∙ ap (λ (l : List ℕ). l ++ new) (count-variable g variable))
                    (elements-Got ls new j (each_of j s))))))
  ]
    where
      array : g.is_array ≡ true
      array = shape.1 ∙ ok.0.1

      of_kind : kind g.type ≡ nested
      of_kind = ap kind shape.0 ∙ ok.0.0

      new : List ℕ
      new = wire_messages (count h.array_size) ms

      each_of :
          (j : Input)
          → At (new ++ rest) j
          → Got
              (λ ks. wire_messages (count g.array_size) ks ≡ new)
              rest
              (read_each rec (count g.array_size) ls j)
      each_of j r =
          subst
            (λ (z : ℤ).
              Got (λ ks. wire_messages (count z) ks ≡ new) rest (read_each rec (count z) ls j))
            (sym same) (each j r)

      nested_array :
          read_field build rec place (field g (as_msg_array ls)) i
          ≡ read_array build rec place g nested (as_msg_array ls) i
      nested_array = reads_array build rec place g (as_msg_array ls) i nested array of_kind
