-- ===== src/MessageQueue/Ring.antt =====
-- The part of the ring that is in use, as a list.
use cros.Common.{
  List, [], ap, ap₂, arith, get_or, get_or-set_ne, length, none, refl, set, suc, sym, zero, ℕ, ◌%◌,
  ◌++◌, ◌+◌, ◌<◌, ◌∙◌, ◌∷◌, ◌≡◌, ◌≢◌,
}
use cros.Mem.{done}
use cros.Message.{Message, message, no_fields}
use cros.MessageQueue.{slot_at}

abbrev pub blank_message : Message
blank_message = message no_fields none none

abbrev pub entry : List Message → ℕ → Message
entry ms i = get_or ms i blank_message

-- n entries from an index on, around the end of the ring.
abbrev pub window : List Message → ℕ → ℕ → List Message
window ms first zero = []
window ms first (suc n) = entry ms (first % 10) ∷ window ms (suc first) n

pub slot_at-entry : (ms : List Message) (i : ℕ) → i < length ms → slot_at ms i ≡ done (entry ms i)
slot_at-entry [] i h = absurd (omega arith)
slot_at-entry (m ∷ ms) zero h = refl
slot_at-entry (m ∷ ms) (suc i) h = slot_at-entry ms i (omega arith)

pub window-mod : (ms : List Message) (first n : ℕ) → window ms (first % 10) n ≡ window ms first n
window-mod ms first zero = refl
window-mod ms first (suc n) =
    let here : first % 10 % 10 ≡ first % 10 = omega arith in
    let next : suc (first % 10) % 10 ≡ suc first % 10 = omega arith in
    ap₂ (λ (i : ℕ) (l : List Message). entry ms i ∷ l) here
      (sym (window-mod ms (suc (first % 10)) n)
        ∙ ap (λ (i : ℕ). window ms i n) next
        ∙ window-mod ms (suc first) n)

-- A write to an entry that is not in the window leaves it.
pub window-set :
    (ms : List Message) (i first n : ℕ) (m : Message)
    → ((k : ℕ) → k < n → i ≢ (first + k) % 10)
    → window (set ms i m) first n ≡ window ms first n
window-set ms i first zero m away = refl
window-set ms i first (suc n) m away =
    let here : i ≢ first % 10 =
      λ e. away 0 (omega arith) (e ∙ ap (λ (j : ℕ). j % 10) (omega arith)) in
    ap₂ (λ (x : Message) (l : List Message). x ∷ l) (get_or-set_ne ms m blank_message here)
      (window-set ms i (suc first) n m
        (λ k h e. away (suc k) (omega arith) (e ∙ ap (λ (j : ℕ). j % 10) (omega arith))))

pub window_end :
    (ms : List Message) (first n : ℕ)
    → window ms first (suc n) ≡ window ms first n ++ (entry ms ((first + n) % 10) ∷ [])
window_end ms first zero =
    let e : first ≡ first + 0 = omega arith in ap (λ (j : ℕ). entry ms (j % 10) ∷ []) e
window_end ms first (suc n) =
    let e : suc first + n ≡ first + suc n = omega arith in
    ap (λ (l : List Message). entry ms (first % 10) ∷ l)
      (window_end ms (suc first) n
        ∙ ap (λ (j : ℕ). window ms (suc first) n ++ (entry ms (j % 10) ∷ [])) e)
