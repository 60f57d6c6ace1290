-- ===== src/ErrCodes/Pack.antt =====
-- A pack stands for the list of its codes, newest first: at most four.
use native.Mathlib.Decide.{dec_lt}
use native.Mathlib.Nat.{pow-suc}
use mathlib.Core.List.{reverse, reverse-append}
use cros.Common.{
  ==_iff, Bool-cases, List, [], ap, append_assoc, arith, false, if◌then◌else◌, inl, inr, length,
  refl, suc, sym, take, take-all, take-take_le, true, zero, ℕ, ◌%◌, ◌*◌, ◌++◌, ◌+◌, ◌/◌, ◌<◌, ◌==◌,
  ◌^◌, ◌∙◌, ◌∷◌, ◌≡◌, ◌≤◌,
}
use cros.Common.Bits.{bit_or_byte}
use cros.ErrCodes.{
  add_codes, add_err_code, add_err_code_pack_if_err, get_last_err_code, remove_last_err_code,
}
use cros.ErrCodes.Catalog.{no_err}
use cros.Mem.{Run, done}

-- The codes in the lowest k bytes, down to the first byte that is 0.
unfoldable pub codes_in : ℕ → ℕ → List ℕ
codes_in zero pack = []
codes_in (suc k) pack = if pack % 256 == 0 then [] else pack % 256 ∷ codes_in k (pack / 256)

abbrev pub codes : ℕ → List ℕ
codes pack = codes_in 4 pack

abbrev IsPack : ℕ → Type 0
IsPack pack = pack < 2 ^ 32

-- A code is a byte other than 0.
abbrev pub IsCode : ℕ → Type 0
IsCode c = (0 < c) × (c < 256)

-- Cutting the upper bytes off cuts the list.
codes_in-mod : (pack : ℕ) → codes_in 3 (pack % 2 ^ 24) ≡ take 3 (codes_in 4 pack)
unfolding codes_in
codes_in-mod pack = ground arith

add_err_code-sum : (pack c : ℕ) → IsCode c → add_err_code pack c ≡ pack % 2 ^ 24 * 256 + c
unfolding add_err_code
add_err_code-sum pack c h =
    let e : pack * 256 % 2 ^ 32 ≡ pack % 2 ^ 24 * 256 = omega arith in
    let nz : (c == 0) ≡ false = ground arith in rw (nz, e) (bit_or_byte (pack % 2 ^ 24) c (h.1))

codes_in-cons : (k rest c : ℕ) → IsCode c → codes_in (suc k) (rest * 256 + c) ≡ c ∷ codes_in k rest
unfolding codes_in
codes_in-cons k rest c h =
    let low : (rest * 256 + c) % 256 ≡ c = omega arith in
    let high : (rest * 256 + c) / 256 ≡ rest = omega arith in
    let nz : (c == 0) ≡ false = ground arith in rw (low, high, nz)

codes-push : (pack c : ℕ) → IsCode c → codes (add_err_code pack c) ≡ c ∷ take 3 (codes pack)
codes-push pack c h =
    rw (add_err_code-sum pack c h, codes_in-cons 3 (pack % 2 ^ 24) c h, codes_in-mod pack)

-- cRosAddErrCode of a code below 256 puts the code in front and keeps at most three of the
-- older ones; no error adds nothing.
pub codes-add_err_code :
    (pack c : ℕ)
    → c < 256
    → codes (add_err_code pack c) ≡ (if c == no_err then codes pack else c ∷ take 3 (codes pack))
codes-add_err_code pack c h = elim (dec_lt 0 c) [
  | yes positive ↦
      let nz : (c == 0) ≡ false = ground arith in rw nz (codes-push pack c (positive, h))
  | no zero_code ↦ let e : c ≡ 0 = omega arith in rw e (unfold add_err_code in refl)
]

add_err_code-IsPack : (pack c : ℕ) → IsCode c → IsPack (add_err_code pack c)
add_err_code-IsPack pack c h = rw (add_err_code-sum pack c h) (omega (arith, h.0, h.1))

take-append-take : (n m : ℕ) (xs ys : List ℕ) → n ≤ m → take n (xs ++ take m ys) ≡ take n (xs ++ ys)
take-append-take n m [] ys h = take-take_le n m ys h
take-append-take zero m (x ∷ xs) ys h = refl
take-append-take (suc n) m (x ∷ xs) ys h =
    ap (λ (l : List ℕ). x ∷ l) (take-append-take n m xs ys (omega arith))

pub codes_in-empty : (k pack : ℕ) → pack % 256 ≡ 0 → codes_in k pack ≡ []
unfolding codes_in
codes_in-empty zero pack h = refl
codes_in-empty (suc k) pack h = rw h

pub codes_in-step :
    (k pack : ℕ)
    → (pack % 256 == 0) ≡ false
    → codes_in (suc k) pack ≡ pack % 256 ∷ codes_in k (pack / 256)
unfolding codes_in
codes_in-step k pack h = rw h

-- What a loop of cRosAddErrCodePackIfErr makes of a pack.
abbrev Joined : ℕ → List ℕ → Run ℕ → Type 0
Joined acc new r =
    (result : ℕ) × (r ≡ done result)
    × (codes result ≡ take 4 (reverse new ++ codes acc))
    × (IsPack acc → IsPack result)

codes_in-le : (k pack : ℕ) → length (codes_in k pack) ≤ k
unfolding codes_in
codes_in-le zero pack = omega arith
codes_in-le (suc k) pack = ground (arith, codes_in-le k (pack / 256))

reverse_onto :
    (c : ℕ) (l s : List ℕ) → take 4 (reverse l ++ (c ∷ take 3 s)) ≡ take 4 (reverse (c ∷ l) ++ s)
reverse_onto c l s =
    take-append-take 4 4 (reverse l) (c ∷ s) (omega arith)
    ∙ ap (take 4) (
        sym (
          ap (λ (r : List ℕ). r ++ s) (reverse-append (c ∷ []) l)
          ∙ append_assoc (reverse l) (c ∷ []) s))

add_codes_stops :
    (k acc pack : ℕ)
    → (pack % 256 == 0) ≡ true
    → Joined acc (codes_in k pack) (add_codes (suc k) acc pack)
unfolding add_codes get_last_err_code
add_codes_stops k acc pack last =
    let e : pack % 256 ≡ 0 = (==_iff (pack % 256) 0).0 last in
    (
      acc,
      rw (add_codes, last),
      rw (codes_in-empty k pack e) (sym (take-all 4 (codes acc) (codes_in-le 4 acc))),
      λ p. p,
    )

add_codes_goes_on :
    (fuel acc pack : ℕ)
    → (pack % 256 == 0) ≡ false
    → add_codes (suc fuel) acc pack ≡ add_codes fuel (add_err_code acc (pack % 256)) (pack / 256)
unfolding add_codes get_last_err_code remove_last_err_code
add_codes_goes_on fuel acc pack more = rw (add_codes, more)

add_codes-Joined :
    (k acc pack : ℕ) → pack < 256 ^ k → Joined acc (codes_in k pack) (add_codes (suc k) acc pack)
add_codes-Joined zero acc pack h = add_codes_stops 0 acc pack (ground arith)
add_codes-Joined (suc k) acc pack h = elim (Bool-cases (pack % 256 == 0)) [
  | inl last ↦ add_codes_stops (suc k) acc pack last
  | inr more ↦
      let c : IsCode (pack % 256) = (ground arith, omega arith) in
      let (result, returns, same, fits) =
        add_codes-Joined k (add_err_code acc (pack % 256)) (pack / 256)
          (omega (arith, pow-suc 256 k)) in
      (
        result,
        add_codes_goes_on (suc k) acc pack more ∙ returns,
        same
            ∙ (ap (λ (l : List ℕ). take 4 (reverse (codes_in k (pack / 256)) ++ l))
                  (codes-push acc (pack % 256) c)
                ∙ (reverse_onto (pack % 256) (codes_in k (pack / 256)) (codes acc)
                    ∙ ap (λ (l : List ℕ). take 4 (reverse l ++ codes acc))
                        (sym (codes_in-step k pack more)))),
        λ p. fits (add_err_code-IsPack acc (pack % 256) c),
      )
]

-- cRosAddErrCodePackIfErr on a 32-bit pack ends within its fuel, and the codes of the result are
-- those of the second pack in the opposite order, then those of the first, cut to four.
pub add_err_code_pack_if_err-codes :
    (pack_0 pack_1 : ℕ)
    → pack_1 < 2 ^ 32
    → (result : ℕ) × (add_err_code_pack_if_err pack_0 pack_1 ≡ done result)
      × (codes result ≡ take 4 (reverse (codes pack_1) ++ codes pack_0))
unfolding add_err_code_pack_if_err
add_err_code_pack_if_err-codes pack_0 pack_1 h =
    let (result, returns, same, fits) = add_codes-Joined 4 pack_0 pack_1 h in
    (result, returns, same)

-- After cRosAddErrCode of a code from 1 to 255, cRosGetLastErrCode gives the code, and
-- cRosRemoveLastErrCode gives the old pack without its highest byte.
pub remove-add_err_code :
    (pack c : ℕ)
    → IsCode c
    → (get_last_err_code (add_err_code pack c) ≡ c)
      × (remove_last_err_code (add_err_code pack c) ≡ pack % 2 ^ 24)
unfolding get_last_err_code remove_last_err_code
remove-add_err_code pack c h =
    rw (add_err_code-sum pack c h) (omega (arith, h.0, h.1), omega (arith, h.0, h.1))
