-- ===== src/ErrCodes/Print.antt =====
-- cRosPrintErrCodePack and cRosErrCodePackStr: the text of a pack. A number of characters that is no
-- `int` is undefined behaviour. The caller's format and its
-- arguments come as the text that vfprintf makes of them; NULL is `none`.
use native.Mathlib.Nat.{pow-suc}
use cros.Common.{
  ==_iff, Bool-cases, List, Option, [], ap, append-nil, append_assoc, ap₂, arith, false,
  if◌then◌else◌, inl, inr, int_max, length, length-append, length-take, le→leb, none, refl, some,
  suc, sym, take, take-append, true, zero, ℕ, ◌%◌, ◌++◌, ◌+◌, ◌-◌, ◌/◌, ◌<◌, ◌==◌, ◌^◌, ◌∙◌, ◌∷◌,
  ◌≡◌, ◌≤◌,
}
use cros.Common.Decimal.{chars, decimal}
use cros.Mem.{Run, done, int, no_fuel, ◌>>=◌}
use cros.ErrCodes.{get_err_code_str, get_last_err_code, remove_last_err_code}
use cros.ErrCodes.Pack.{codes, codes_in, codes_in-empty, codes_in-step}

-- What is printed for one code.
unfoldable pub entry_text : ℕ → List ℕ
entry_text c = elim (get_err_code_str c) [
  | some msg ↦ chars ". Err " ++ (decimal c ++ (chars ": " ++ chars msg))
  | none ↦
      chars ". Error code "
      ++ (decimal c ++ chars " (The description string for this error code has not been found).")
]

abbrev pub heading : Option (List ℕ) → List ℕ
heading none = []
heading (some text) = text

-- The loop of cRosPrintErrCodePack: the stream so far and the number of characters.
pub print_codes : ℕ → ℕ → List ℕ → ℕ → Run (ℕ × List ℕ)
print_codes zero pack out n = no_fuel
print_codes (suc fuel) pack out n = elim (get_last_err_code pack == 0) [
  | true ↦ done (n, out)
  | false ↦
      let text = entry_text (get_last_err_code pack) in
      int (n + length text) >>= λ n'. print_codes fuel (remove_last_err_code pack) (out ++ text) n'
]

pub print_err_code_pack : ℕ → Option (List ℕ) → Run (ℕ × List ℕ)
print_err_code_pack pack fmt = do
  n ← int (length (heading fmt))
  r ← print_codes 5 pack (heading fmt) n
  n' ← int (r.0 + 1)
  done (n', r.1 ++ (10 ∷ []))

-- strlen stops at the first NUL, which the caller's text may hold.
unfoldable pub before_nul : List ℕ → List ℕ
before_nul [] = []
before_nul (c ∷ cs) = let rest = before_nul cs in if c == 0 then [] else c ∷ rest

-- snprintf at the end of the text in a buffer of `len` bytes: what fits before the NUL is kept.
abbrev pub append_cut : ℕ → List ℕ → List ℕ → List ℕ
append_cut len buf text = buf ++ take (len - length buf - 1) text

-- The loop of cRosErrCodePackStr: the text in the buffer, which ends at its first NUL, and the number
-- of characters.
unfoldable pub str_codes : ℕ → ℕ → ℕ → List ℕ → ℕ → Run (ℕ × List ℕ)
str_codes zero len pack buf n = no_fuel
str_codes (suc fuel) len pack buf n = elim (get_last_err_code pack == 0) [
  | true ↦ done (n, buf)
  | false ↦
      let text = entry_text (get_last_err_code pack) in
      int (n + length text) >>= λ n'.
      str_codes fuel len (remove_last_err_code pack) (append_cut len buf text) n'
]

-- `none` for the buffer where nothing is written to it.
unfoldable pub err_code_pack_str : ℕ → ℕ → Option (List ℕ) → Run (ℕ × Option (List ℕ))
err_code_pack_str len pack fmt =
    if len == 0
    then done (0, none)
    else int (length (heading fmt)) >>= λ n.
        str_codes 5 len pack (append_cut len [] (before_nul (heading fmt))) n >>= λ r.
        done (r.0, some r.1)

-- The texts of the codes, one after the other.
abbrev pub texts : List ℕ → List ℕ
texts [] = []
texts (c ∷ cs) = entry_text c ++ texts cs

-- Appending what fits to what fits is what fits of the whole.
append_cut-take :
    (len : ℕ) (whole text : List ℕ)
    → append_cut len (take (len - 1) whole) text ≡ take (len - 1) (whole ++ text)
append_cut-take len whole text =
    let e : len - length (take (len - 1) whole) - 1 ≡ len - 1 - length whole =
      omega (arith, length-take (len - 1) whole) in
    ap (λ (k : ℕ). take (len - 1) whole ++ take k text) e ∙ sym (take-append (len - 1) whole text)

text_step :
    (k pack : ℕ)
    → (pack % 256 == 0) ≡ false
    → texts (codes_in (suc k) pack) ≡ entry_text (pack % 256) ++ texts (codes_in k (pack / 256))
text_step k pack more = ap texts (codes_in-step k pack more)

text_count :
    (k pack n : ℕ)
    → (pack % 256 == 0) ≡ false
    → n + length (entry_text (pack % 256)) + length (texts (codes_in k (pack / 256)))
      ≡ n + length (texts (codes_in (suc k) pack))
text_count k pack n more =
    rw (text_step k pack more)
      (omega (arith, length-append (entry_text (pack % 256)) (texts (codes_in k (pack / 256)))))

text_whole :
    (k pack : ℕ) (whole : List ℕ)
    → (pack % 256 == 0) ≡ false
    → (whole ++ entry_text (pack % 256)) ++ texts (codes_in k (pack / 256))
      ≡ whole ++ texts (codes_in (suc k) pack)
text_whole k pack whole more =
    append_assoc whole (entry_text (pack % 256)) (texts (codes_in k (pack / 256)))
    ∙ ap (λ (t : List ℕ). whole ++ t) (sym (text_step k pack more))

print_codes_lem :
    (k pack n : ℕ) (out : List ℕ)
    → pack < 256 ^ k
    → n + length (texts (codes_in k pack)) ≤ int_max
    → print_codes (suc k) pack out n
      ≡ done (n + length (texts (codes_in k pack)), out ++ texts (codes_in k pack))
unfolding print_codes get_last_err_code remove_last_err_code
print_codes_lem zero pack n out h small =
    let e : pack ≡ 0 = omega arith in
    rw (print_codes, e, codes_in-empty 0 0 refl, append-nil)
      (ap (λ (m : ℕ). done (m, out)) (omega arith))
print_codes_lem (suc k) pack n out h small = elim (Bool-cases (pack % 256 == 0)) [
  | inl last ↦
      rw
        (
          print_codes,
          last,
          codes_in-empty (suc k) pack ((==_iff (pack % 256) 0).0 last),
          append-nil,
        )
        (ap (λ (m : ℕ). done (m, out)) (omega arith))
  | inr more ↦
      rw
        (
          print_codes,
          more,
          le→leb (n + length (entry_text (pack % 256))) int_max
              (omega (arith, text_count k pack n more)),
        )
        (print_codes_lem k (pack / 256) (n + length (entry_text (pack % 256)))
            (out ++ entry_text (pack % 256)) (omega (arith, pow-suc 256 k))
            (omega (arith, text_count k pack n more))
          ∙ ap₂ (λ (m : ℕ) (t : List ℕ). done (m, t)) (text_count k pack n more)
              (text_whole k pack out more))
]

append_cut-nil : (len : ℕ) (text : List ℕ) → append_cut len [] text ≡ take (len - 1) text
append_cut-nil len text = ap (λ (k : ℕ). take k text) (omega arith)

str_codes_more :
    (k len pack n : ℕ) (buf : List ℕ)
    → (pack % 256 == 0) ≡ false
    → n + length (entry_text (pack % 256)) ≤ int_max
    → str_codes (suc k) len pack buf n
      ≡ str_codes k len
          (pack / 256)
          (append_cut len buf (entry_text (pack % 256)))
          (n + length (entry_text (pack % 256)))
unfolding str_codes get_last_err_code remove_last_err_code
str_codes_more k len pack n buf more small =
    rw (str_codes, more, le→leb (n + length (entry_text (pack % 256))) int_max small)

module _ (len : ℕ) where
  str_codes_lem :
      (k pack n : ℕ) (whole : List ℕ)
      → pack < 256 ^ k
      → n + length (texts (codes_in k pack)) ≤ int_max
      → str_codes (suc k) len pack (take (len - 1) whole) n
        ≡ done (
          n + length (texts (codes_in k pack)),
          take (len - 1) (whole ++ texts (codes_in k pack)),
        )
  unfolding str_codes get_last_err_code remove_last_err_code
  str_codes_lem zero pack n whole h small =
      let e : pack ≡ 0 = omega arith in
      rw (str_codes, e, codes_in-empty 0 0 refl, append-nil)
        (ap (λ (m : ℕ). done (m, take (len - 1) whole)) (omega arith))
  str_codes_lem (suc k) pack n whole h small = elim (Bool-cases (pack % 256 == 0)) [
    | inl last ↦
        rw
          (
            str_codes,
            last,
            codes_in-empty (suc k) pack ((==_iff (pack % 256) 0).0 last),
            append-nil,
          )
          (ap (λ (m : ℕ). done (m, take (len - 1) whole)) (omega arith))
    | inr more ↦
        rw
          (
            str_codes_more (suc k) len pack n (take (len - 1) whole) more
                (omega (arith, text_count k pack n more)),
            append_cut-take len whole (entry_text (pack % 256)),
          )
          (str_codes_lem k (pack / 256) (n + length (entry_text (pack % 256)))
              (whole ++ entry_text (pack % 256)) (omega (arith, pow-suc 256 k))
              (omega (arith, text_count k pack n more))
            ∙ ap₂ (λ (m : ℕ) (t : List ℕ). done (m, take (len - 1) t)) (text_count k pack n more)
                (text_whole k pack whole more))
  ]

-- cRosErrCodePackStr of a 32-bit pack with a buffer of at least one byte, where the number of
-- characters is an `int`, ends within its fuel: it leaves as much as fits before the NUL of the
-- caller's text up to its first NUL and of the texts of the codes, newest first, and returns the
-- number of characters of the uncut texts.
pub err_code_pack_str_lem :
    (len pack : ℕ) (fmt : Option (List ℕ))
    → 0 < len
    → pack < 2 ^ 32
    → length (heading fmt ++ texts (codes pack)) ≤ int_max
    → err_code_pack_str len pack fmt
      ≡ done (
        length (heading fmt ++ texts (codes pack)),
        some (take (len - 1) (before_nul (heading fmt) ++ texts (codes pack))),
      )
unfolding err_code_pack_str
err_code_pack_str_lem len pack fmt positive h small =
    let nz : (len == 0) ≡ false = ground arith in
    let all = length-append (heading fmt) (texts (codes pack)) in
    rw (
      nz,
      le→leb (length (heading fmt)) int_max (omega (arith, all)),
      append_cut-nil len (before_nul (heading fmt)),
      str_codes_lem len 4 pack (length (heading fmt)) (before_nul (heading fmt)) h
          (omega (arith, all)),
      length-append (heading fmt) (texts (codes pack)),
    )

-- cRosPrintErrCodePack of a 32-bit pack, where the number of characters is an `int`, ends within its fuel: it prints the caller's text, the
-- texts of the codes, newest first, and a newline, and returns the number of characters.
pub print_err_code_pack_lem :
    (pack : ℕ) (fmt : Option (List ℕ))
    → pack < 2 ^ 32
    → length (heading fmt ++ texts (codes pack)) + 1 ≤ int_max
    → print_err_code_pack pack fmt
      ≡ done (
        length (heading fmt ++ texts (codes pack)) + 1,
        (heading fmt ++ texts (codes pack)) ++ (10 ∷ []),
      )
unfolding print_err_code_pack
print_err_code_pack_lem pack fmt h small =
    let all = length-append (heading fmt) (texts (codes pack)) in
    rw
      (
        le→leb (length (heading fmt)) int_max (omega (arith, all)),
        print_codes_lem 4 pack (length (heading fmt)) (heading fmt) h (omega (arith, all)),
        ← all,
        le→leb (length (heading fmt ++ texts (codes pack)) + 1) int_max small,
      )
      refl
