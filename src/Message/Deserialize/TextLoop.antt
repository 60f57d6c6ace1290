-- ===== src/Message/Deserialize/TextLoop.antt =====
-- The loop of cRosMessageDeserialize over the elements of an array of texts.
use cros.Common.{
  List, Option, [], append-nil, append_assoc, arith, length, length-append, none, pos, refl, some,
  subst, suc, sym, true, ℕ, ℤ, ◌++◌, ◌+◌, ◌<◌, ◌∷◌, ◌≡◌, ◌≤◌,
}
use cros.Mem.{Answers, Run, done, later, ◌>>=◌}
use cros.Message.{Field, Text}
use cros.Message.Serialize.{push_code, stored}
use cros.Message.Serialize.Wire.{wire_text}
use cros.Message.Deserialize.Reads.{Input, read_element, read_texts, store_text, text_or_empty}
use cros.Message.Deserialize.Cursor.{At, At-with, Got, Got-then, read_content-Got}
use cros.Message.Deserialize.Numbers.{read_number-Got}
use cros.Message.Deserialize.Texts.{
  IsString, NoNul, received, received-NoNul, text_split, until_nul-NoNul, wide,
}

abbrev pub wire_all : List (Option Text) → List ℕ
wire_all [] = []
wire_all (t ∷ ts) = wire_text t ++ wire_all ts

abbrev pub AreStrings : List (Option Text) → Type 0
AreStrings [] = Unit {0}
AreStrings (t ∷ ts) = IsString t × AreStrings ts

-- What the texts become: NULL arrives as the empty text.
abbrev pub arrived : List (Option Text) → List (Option Text)
arrived [] = []
arrived (t ∷ ts) = some (received t) ∷ arrived ts

-- A text was stored behind those that are there.
pub record TextStored (Has : List (Option Text) → Field → Type 0) (stored : List (Option Text))
    (t : Text) (r : Run (ℤ × Field × Answers)) : Type 0 where
  pub f' : Field
  pub a' : Answers
  pub returns : r ≡ done (pos 0, f', a')
  pub good : Has (stored ++ (some t ∷ [])) f'
  pub memory : (k : ℕ) → a' k ≡ true

-- The field takes up to n texts, one behind the other.
abbrev pub Takes : (List (Option Text) → Field → Type 0) → ℕ → Type 0
Takes Has n =
    (a : Answers) (f : Field) (stored : List (Option Text)) (t : Text)
    → ((k : ℕ) → a k ≡ true)
    → length stored < n
    → Has stored f
    → TextStored Has stored t (store_text a f (length stored) t)

module _ (Has : List (Option Text) → Field → Type 0) (n : ℕ) (takes : Takes Has n) where
  element-Got :
      (stored : List (Option Text)) (f : Field) (t : Text) (rest : List ℕ) (i : Input)
      → Has stored f
      → length stored < n
      → NoNul t
      → At (t ++ rest) i
      → Got (Has (stored ++ (some t ∷ []))) rest (read_element (length stored) (length t) f i)
  unfolding read_element
  element-Got stored f t rest i has room clean ready =
      rw (wide t rest i ready, ready.memory 0)
        (Got-then
          {f = λ x j. store_text (later i.answers) f (length stored) (text_or_empty x) >>= λ s.
            done (s.1, record j { code = push_code (s.0); answers = s.2 })}
          (read_content-Got i t rest ready)
          (λ x j e r.
            let p : TextStored Has stored t (store_text (later i.answers) f (length stored) t) =
              takes (later i.answers) f stored t (λ k. ready.memory (suc k)) room has in
            rw (e, until_nul-NoNul t clean, p.returns)
              (record {
                value = p.f';
                input = record j { code = 0; answers = p.a' };
                returns = refl;
                good = p.good;
                ready = At-with r refl p.memory;
              })))

  pub texts-Got :
      (todo stored : List (Option Text)) (f : Field) (rest : List ℕ) (i : Input)
      → Has stored f
      → length stored + length todo ≤ n
      → AreStrings todo
      → At (wire_all todo ++ rest) i
      → Got (Has (stored ++ arrived todo)) rest (read_texts (length todo) (length stored) f i)
  unfolding read_texts
  texts-Got [] stored f rest i has room clean ready = record {
    value = f;
    input = i;
    returns = refl;
    good = subst (λ (l : List (Option Text)). Has l f) (sym (append-nil stored)) has;
    ready = ready;
  }
  texts-Got (t ∷ todo) stored f rest i has room clean ready =
      let first : At (wire_text t ++ (wire_all todo ++ rest)) i =
        subst (λ (l : List ℕ). At l i) (append_assoc (wire_text t) (wire_all todo) rest) ready in
      rw (read_texts, ready.no_error)
        (Got-then
          {f = λ x j. elim x [
            | none ↦ done (f, j)
            | some size ↦ read_element (length stored) size f j >>= λ s.
                read_texts (length todo) (suc (length stored)) (s.0) (s.1)
          ]}
          (read_number-Got i (length (received t)) (received t ++ (wire_all todo ++ rest))
            ((text_split t (wire_all todo ++ rest) i first).1)
            ((text_split t (wire_all todo ++ rest) i first).0))
          (λ x j e r. rw e (
            Got-then {f = λ g l. read_texts (length todo) (suc (length stored)) g l}
              (element-Got stored f (received t) (wire_all todo ++ rest) j has (omega arith)
                (received-NoNul t (clean.0)) r)
              (λ g l more s.
                let one : List (Option Text) = some (received t) ∷ [] in
                let longer : length (stored ++ one) ≡ suc (length stored) =
                  omega (arith, length-append {0} stored one) in
                subst
                  (λ (k : ℕ).
                    Got (Has (stored ++ (one ++ arrived todo))) rest
                      (read_texts (length todo) k g l))
                  longer
                  (subst
                    (λ (h : List (Option Text)).
                      Got (Has h) rest (read_texts (length todo) (length (stored ++ one)) g l))
                    (append_assoc stored one (arrived todo))
                    (texts-Got todo (stored ++ one) g rest l more (omega (arith, longer, room))
                      (clean.1) s))))))
