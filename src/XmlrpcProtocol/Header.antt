-- ===== src/XmlrpcProtocol/Header.antt =====
-- The loop over the header of a message (src/xmlrpc_protocol.c), step by step.
use cros.Common.{
  Bool-cases, Option, [], ap, arith, drop, false, if◌then◌else◌, inl, inr, length, length-append,
  none, refl, some, suc, zero, ℕ, ◌++◌, ◌<◌, ◌==◌, ◌∙◌, ◌∷◌, ◌≡◌, ◌≢◌, ◌≤◌,
}
use cros.Common.Decimal.{AreDigits, chars}
use cros.Common.Text.{starts_with}
use cros.XmlrpcParams.{Text}
use cros.XmlrpcProtocol.Parse.{
  blank_line_at, c_length, ends, header_loop, host_at, length_at, starts_with_nocase,
}

abbrev pub HasNoNul : Text → Type 0
HasNoNul [] = Unit {0}
HasNoNul (c ∷ cs) = (c ≢ 0) × HasNoNul cs

pub c_length-HasNoNul : (t : Text) → HasNoNul t → c_length t ≡ length t
unfolding c_length
c_length-HasNoNul [] h = refl
c_length-HasNoNul (c ∷ cs) h =
    let e : (c == 0) ≡ false = ground (arith, h.0) in rw e (ap suc (c_length-HasNoNul cs (h.1)))

-- A part of the header's line: no NUL and no line end.
abbrev pub IsInLine : Text → Type 0
IsInLine [] = Unit {0}
IsInLine (c ∷ cs) = (c ≢ 0) × (c ≢ 10) × (c ≢ 13) × IsInLine cs

pub IsInLine-HasNoNul : (t : Text) → IsInLine t → HasNoNul t
IsInLine-HasNoNul [] h = tt
IsInLine-HasNoNul (c ∷ cs) h = (h.0, IsInLine-HasNoNul cs (h.3))

pub HasNoNul-append : (xs ys : Text) → HasNoNul xs → HasNoNul ys → HasNoNul (xs ++ ys)
HasNoNul-append [] ys h h' = h'
HasNoNul-append (x ∷ xs) ys h h' = (h.0, HasNoNul-append xs ys (h.1) h')

pub ends_not : (n : ℕ) (t : Text) → HasNoNul t → n < length t → ends (drop n t) ≡ false
ends_not n [] h l = absurd (omega arith)
ends_not zero (c ∷ cs) h l = ground (arith, h.0)
ends_not (suc n) (c ∷ cs) h l = ends_not n cs (h.1) (omega arith)

-- With seven characters or more ahead and no NUL the code sees no host.
no_host : (t : Text) → HasNoNul t → 6 < length t → host_at t ≡ false
no_host t h l = elim (Bool-cases (starts_with_nocase (chars "host: ") t)) [
  | inl yes_there ↦ rw (yes_there, ends_not 6 t h l) refl
  | inr not_there ↦ rw not_there refl
]

abbrev next_length : Option Text → Text → Option Text
next_length l c = if length_at c then some (drop 16 c) else l

step_on :
    (l : Option Text) (c : ℕ) (cs : Text)
    → HasNoNul (c ∷ cs)
    → 6 < length (c ∷ cs)
    → blank_line_at (c ∷ cs) ≡ none
    → header_loop l false (c ∷ cs) ≡ header_loop (next_length l (c ∷ cs)) false cs
unfolding header_loop
step_on l c cs h len e = rw (header_loop, no_host (c ∷ cs) h len, e) refl

no_blank_line : (c : ℕ) (cs : Text) → c ≢ 10 → c ≢ 13 → blank_line_at (c ∷ cs) ≡ none
unfolding starts_with
no_blank_line c cs h h' = ground arith

-- The loop passes over a part of a line; what it knows of the length may change.
pub line_passed :
    (t rest : Text) (l : Option Text)
    → IsInLine t
    → HasNoNul rest
    → 6 < length rest
    → (l' : Option Text) × (header_loop l false (t ++ rest) ≡ header_loop l' false rest)
line_passed [] rest l h h' len = (l, refl)
line_passed (c ∷ cs) rest l h h' len =
    let (l', e) = line_passed cs rest (next_length l ((c ∷ cs) ++ rest)) (h.3) h' len in
    (
      l',
      step_on l c (cs ++ rest) (h.0, HasNoNul-append cs rest (IsInLine-HasNoNul cs (h.3)) h')
            (omega (arith, length-append {0} cs rest)) (no_blank_line c (cs ++ rest) (h.1) (h.2))
          ∙ e,
    )

pub AreDigits-IsInLine : (ds : Text) → AreDigits ds → IsInLine ds
AreDigits-IsInLine [] h = tt
AreDigits-IsInLine (d ∷ ds) h = (
  (λ e. omega (arith, h.0)),
  (λ e. omega (arith, h.0)),
  (λ e. omega (arith, h.0)),
  AreDigits-IsInLine ds (h.2),
)

digit_is_no_length : (d : ℕ) (ds : Text) → 48 ≤ d → d ≤ 57 → length_at (d ∷ ds) ≡ false
unfolding starts_with_nocase
digit_is_no_length d ds h h' = ground arith

-- Digits leave what it knows of the length.
pub digits_passed :
    (ds rest : Text) (l : Option Text)
    → AreDigits ds
    → HasNoNul rest
    → 6 < length rest
    → header_loop l false (ds ++ rest) ≡ header_loop l false rest
digits_passed [] rest l h h' len = refl
digits_passed (d ∷ ds) rest l h h' len =
    step_on l d (ds ++ rest)
      (
        (λ e. omega (arith, h.0)),
        HasNoNul-append ds rest (IsInLine-HasNoNul ds (AreDigits-IsInLine ds (h.2))) h',
      )
      (omega (arith, length-append {0} ds rest))
      (no_blank_line d (ds ++ rest) (λ e. omega (arith, h.0)) (λ e. omega (arith, h.0)))
    ∙ rw (digit_is_no_length d (ds ++ rest) (h.0) (h.1)) (digits_passed ds rest l (h.2) h' len)

pub length_line_passed :
    (rest : Text) (l : Option Text)
    → header_loop l false (chars "\r\nContent-Type: text/xml\r\nContent-length: " ++ rest)
      ≡ header_loop (some rest) false rest
unfolding header_loop starts_with starts_with_nocase
length_line_passed rest l = refl

pub blank_line_found :
    (rest : Text) (l : Option Text)
    → header_loop l false (chars "\r\n\r\n" ++ rest) ≡ some ((l, false), rest)
unfolding header_loop starts_with starts_with_nocase
blank_line_found rest l = refl

pub request_line_passed :
    (rest : Text)
    → ends rest ≡ false
    → header_loop none false
        (chars "POST / HTTP/1.1\r\nUser-Agent: Custom XMLRPC\r\nHost: " ++ rest)
      ≡ header_loop none false rest
unfolding header_loop starts_with starts_with_nocase
request_line_passed rest e = rw (header_loop, e) refl

pub response_line_passed :
    (rest : Text)
    → header_loop none false (
        chars "HTTP/1.1 200 OK\r\nServer: Custom XMLRPC"
        ++ (chars "\r\nContent-Type: text/xml\r\nContent-length: " ++ rest))
      ≡ header_loop (some rest) false rest
unfolding header_loop starts_with starts_with_nocase
response_line_passed rest = refl
