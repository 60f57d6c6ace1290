-- ===== src/Message/Deserialize/Shapes.antt =====
-- How a field is read, by its shape.
use cros.Common.{List, ap, ap₂, false, refl, subst, suc, sym, true, ℕ, ◌++◌, ◌∙◌, ◌≡◌}
use cros.Mem.{Run, done, ◌>>=◌}
use cros.Message.{
  Data, Field, FieldHead, Kind, Message, MessageType, Messages, bool_type, byte_type, char_type,
  custom_type, duration_type, field, float32_type, float64_type, header_type, int16_type,
  int32_type, int64_type, int8_type, kind, string_type, text, time_type, uint16_type, uint32_type,
  uint64_type, uint8_type, with_message,
}
use cros.Message.Arrays.{is_type}
use cros.Message.Serialize.Wire.{wire, wire_messages}
use cros.Message.Deserialize.{Builder, Place, read_array, read_each, read_field, read_single}
use cros.Message.Deserialize.Reads.{Input}
use cros.Message.Deserialize.Cursor.{At, Got, Got-then}
use cros.Message.Deserialize.Numbers.{SentAs}

pub kind-text : (ty : MessageType) → kind ty ≡ text → is_type ty string_type ≡ true
unfolding kind
kind-text custom_type h = cc
kind-text int8_type h = cc
kind-text uint8_type h = cc
kind-text int16_type h = cc
kind-text uint16_type h = cc
kind-text int32_type h = cc
kind-text uint32_type h = cc
kind-text int64_type h = cc
kind-text uint64_type h = cc
kind-text float32_type h = cc
kind-text float64_type h = cc
kind-text string_type h = refl
kind-text bool_type h = cc
kind-text time_type h = cc
kind-text duration_type h = cc
kind-text header_type h = cc
kind-text char_type h = cc
kind-text byte_type h = cc

-- Reading under an equal list of bytes to come.
pub by_bytes :
    {new old rest : List ℕ} {r : Run (Field × Input)} {i : Input}
    → old ≡ new
    → At (new ++ rest) i
    → (At (old ++ rest) i → Got (SentAs old) rest r)
    → Got (SentAs new) rest r
by_bytes {new} {old} {rest} {r} {i} e ready next =
    subst (λ (l : List ℕ). Got (SentAs l) rest r) e
      (next (subst (λ (l : List ℕ). At (l ++ rest) i) (sym e) ready))

module _ (build : Builder) (rec : Message → Input → Run (Message × Input)) (place : Place)
    (h : FieldHead) (d : Data) (i : Input) where
  pub reads_single :
      (k : Kind)
      → h.is_array ≡ false
      → kind h.type ≡ k
      → read_field build rec place (field h d) i ≡ read_single build rec h k d i
  unfolding read_field
  reads_single k single of_kind =
      (simp (single)) ∙ ap (λ (j : Kind). read_single build rec h j d i) of_kind

  pub reads_array :
      (k : Kind)
      → h.is_array ≡ true
      → kind h.type ≡ k
      → read_field build rec place (field h d) i ≡ read_array build rec place h k d i
  unfolding read_field
  reads_array k array of_kind =
      (simp (array)) ∙ ap (λ (j : Kind). read_array build rec place h j d i) of_kind

-- The loop over nested messages.
pub each-Got :
    (rec : Message → Input → Run (Message × Input)) (new rest : List ℕ) (l : Message)
    (ls : Messages) (n : ℕ) (first : List ℕ) (i : Input)
    → i.code ≡ 0
    → Got (λ m. wire m ≡ first) (new ++ rest) (rec l i)
    → ((j : Input)
        → At (new ++ rest) j
        → Got (λ ms. wire_messages n ms ≡ new) rest (read_each rec n ls j))
    → Got
        (λ ms. wire_messages (suc n) ms ≡ first ++ new)
        rest
        (read_each rec (suc n) (with_message l ls) i)
unfolding read_each wire
each-Got rec new rest l ls n first i ok one others =
    rw (read_each, ok)
      (Got-then {f = λ m j. read_each rec n ls j >>= λ s. done (with_message m (s.0), s.1)} one
        (λ m j same r.
          Got-then {f = λ ms k. done (with_message m ms, k)} (others j r) (λ ms k same' s. record {
            value = with_message m ms;
            input = k;
            returns = refl;
            good = ap₂ (λ (x y : List ℕ). x ++ y) same same';
            ready = s;
          })))
