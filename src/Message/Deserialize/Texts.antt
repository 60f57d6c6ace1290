-- ===== src/Message/Deserialize/Texts.antt =====
-- Texts and arrays of texts against the bytes that stand for them.
use cros.Common.{
  ==_iff, Bool-cases, List, Option, [], ap, append-nil, append_assoc, arith, false, inl, inr,
  int_max, length, length-append, none, refl, some, subst, suc, sym, ℕ, ◌%◌, ◌++◌, ◌+◌, ◌<◌, ◌==◌,
  ◌^◌, ◌∙◌, ◌∷◌, ◌≡◌, ◌≢◌, ◌≤◌,
}
use cros.DynBuffer.{le_bytes}
use cros.Message.{FieldHead, Text, as_string, field}
use cros.Message.Serialize.Wire.{wire, wire_field, wire_text}
use cros.Message.Deserialize.Reads.{Input, read_text, read_text_of, until_nul}
use cros.Message.Deserialize.Cursor.{
  At, At-with, Got, Got-then, Got-weaken, next_small, read_content-Got,
}
use cros.Mem.{done, fault, later}
use cros.Message.Deserialize.Numbers.{SentAs, read_number-Got, wire_single}

-- A C string does not hold the character that ends it.
abbrev pub NoNul : Text → Type 0
NoNul [] = Unit {0}
NoNul (c ∷ cs) = (c ≢ 0) × NoNul cs

abbrev pub IsString : Option Text → Type 0
IsString none = Unit {0}
IsString (some t) = NoNul t

-- NULL is sent as the empty text.
abbrev pub received : Option Text → Text
received none = []
received (some t) = t

pub received-NoNul : (t : Option Text) → IsString t → NoNul (received t)
received-NoNul none h = tt
received-NoNul (some t) h = h

pub wire_text-received :
    (t : Option Text) → wire_text t ≡ le_bytes 4 (length (received t)) ++ received t
unfolding wire_text
wire_text-received none = sym (append-nil (le_bytes 4 0))
wire_text-received (some t) = refl

pub sent_again : (t : Option Text) → wire_text (some (received t)) ≡ wire_text t
unfolding wire_text
sent_again none = append-nil (le_bytes 4 0)
sent_again (some t) = refl

pub until_nul-NoNul : (t : Text) → NoNul t → until_nul t ≡ t
until_nul-NoNul [] h = refl
until_nul-NoNul (c ∷ cs) (first, others) = elim (Bool-cases (c == 0)) [
  | inl nul ↦ absurd (first ((==_iff c 0).0 nul))
  | inr other ↦ rw (other, until_nul-NoNul cs others) refl
]

pub wide : (t rest : List ℕ) (i : Input) → At (t ++ rest) i → ((length t + 1) % 2 ^ 32 == 0) ≡ false
wide t rest i ready =
    let few : length t ≤ int_max = next_small i t rest ready in
    let e : (length t + 1) % 2 ^ 32 ≡ length t + 1 = omega arith in ground arith

text_of-Got :
    (h : FieldHead) (t : Text) (rest : List ℕ) (i : Input)
    → NoNul t
    → At (t ++ rest) i
    → Got (λ f. f ≡ field h (as_string (some t))) rest (read_text_of h (length t) i)
unfolding read_text_of
text_of-Got h t rest i clean ready =
    rw (wide t rest i ready, ready.memory 0)
      (Got-then
        {f = λ x j. elim x [
          | none ↦ fault
          | some bytes ↦ done (
            field h (as_string (some (until_nul bytes))),
            record j { code = i.code; answers = later j.answers },
          )
        ]}
        (read_content-Got i t rest ready)
        (λ x j e r. rw e (record {
          value = field h (as_string (some (until_nul t)));
          input = record j { code = i.code; answers = later j.answers };
          returns = refl;
          good = ap (λ (u : Text). field h (as_string (some u))) (until_nul-NoNul t clean);
          ready = At-with r ready.no_error (λ k. r.memory (suc k));
        })))

-- The length comes first.
pub text_split :
    (t : Option Text) (rest : List ℕ) (i : Input)
    → At (wire_text t ++ rest) i
    → At (le_bytes 4 (length (received t)) ++ (received t ++ rest)) i
      × (length (received t) < 2 ^ 32)
text_split t rest i ready = (
  subst (λ (l : List ℕ). At l i)
      (ap (λ (l : List ℕ). l ++ rest) (wire_text-received t)
        ∙ append_assoc (le_bytes 4 (length (received t))) (received t) rest)
      ready,
  omega (
    arith,
    next_small i (wire_text t) rest ready,
    ap length (wire_text-received t),
    length-append {0} (le_bytes 4 (length (received t))) (received t),
  ),
)

-- A single text.
pub text-Got :
    (h : FieldHead) (t : Option Text) (rest : List ℕ) (i : Input)
    → h.is_array ≡ false
    → IsString t
    → At (wire_text t ++ rest) i
    → Got (SentAs (wire_text t)) rest (read_text h i)
unfolding read_text wire
text-Got h t rest i single clean ready =
    Got-then {f = λ x j. elim x [ none ↦ fault | some n ↦ read_text_of h n j ]}
      (read_number-Got i (length (received t)) (received t ++ rest) ((text_split t rest i ready).1)
        ((text_split t rest i ready).0))
      (λ x j e r. rw e (
        Got-weaken {Fine = SentAs (wire_text t)}
          (λ f same.
            ap wire_field same
            ∙ (wire_single h (as_string (some (received t))) single ∙ sent_again t))
          (text_of-Got h (received t) rest j (received-NoNul t clean) r)))
