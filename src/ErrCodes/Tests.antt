-- ===== src/ErrCodes/Tests.antt =====
-- Runs of src/cros_err_codes.c on concrete packs.
use mathlib.Core.List.{reverse}
use cros.Common.{
  [], arith, if◌then◌else◌, length, none, refl, some, take, ℕ, ◌%◌, ◌*◌, ◌++◌, ◌+◌, ◌-◌, ◌==◌, ◌^◌,
  ◌∷◌, ◌≡◌,
}
use cros.Common.Decimal.{chars, decimal}
use cros.Mem.{done}
use cros.ErrCodes.{
  add_err_code, add_err_code_pack_if_err, get_err_code_str, get_last_err_code, remove_last_err_code,
}
use cros.ErrCodes.Catalog.{messages, no_err}
use cros.ErrCodes.Pack.{
  add_err_code_pack_if_err-codes, codes, codes-add_err_code, codes_in, remove-add_err_code,
}
use cros.ErrCodes.Print.{
  before_nul, entry_text, err_code_pack_str, err_code_pack_str_lem, heading, print_err_code_pack,
  print_err_code_pack_lem, str_codes, texts,
}

-- The codes 3, 2 and 1, added in the order 1, 2, 3.
abbrev three_codes : ℕ
three_codes = 65536 + 2 * 256 + 3

three_codes_lem : add_err_code (add_err_code (add_err_code 0 1) 2) 3 ≡ three_codes
unfolding add_err_code
three_codes_lem = refl

codes-add_err_code_example :
    codes (add_err_code three_codes 7)
    ≡ (if 7 == no_err then codes three_codes else 7 ∷ take 3 (codes three_codes))
codes-add_err_code_example = codes-add_err_code three_codes 7 (omega arith)

add_err_code_pack_if_err-codes_example :
    (result : ℕ) × (add_err_code_pack_if_err 9 three_codes ≡ done result)
    × (codes result ≡ take 4 (reverse (codes three_codes) ++ codes 9))
add_err_code_pack_if_err-codes_example = add_err_code_pack_if_err-codes 9 three_codes (omega arith)

remove-add_err_code_example :
    (get_last_err_code (add_err_code three_codes 7) ≡ 7)
    × (remove_last_err_code (add_err_code three_codes 7) ≡ three_codes % 2 ^ 24)
remove-add_err_code_example = remove-add_err_code three_codes 7 (omega arith, omega arith)

length-three_texts : length (texts (codes three_codes)) ≡ 155
unfolding codes_in entry_text get_err_code_str messages decimal
length-three_texts = refl

err_code_pack_str_lem_example :
    err_code_pack_str 20 three_codes (some (chars "failed"))
    ≡ done (
      length (heading (some (chars "failed")) ++ texts (codes three_codes)),
      some (
          take
            (20 - 1)
            (before_nul (heading (some (chars "failed"))) ++ texts (codes three_codes))),
    )
err_code_pack_str_lem_example =
    err_code_pack_str_lem 20 three_codes (some (chars "failed")) (omega arith) (omega arith)
      (omega (arith, length-three_texts))

print_err_code_pack_lem_example :
    print_err_code_pack three_codes none
    ≡ done (
      length (heading none ++ texts (codes three_codes)) + 1,
      (heading none ++ texts (codes three_codes)) ++ (10 ∷ []),
    )
print_err_code_pack_lem_example =
    print_err_code_pack_lem three_codes none (omega arith) (omega (arith, length-three_texts))

-- The rest of the caller's text after a NUL is counted, and is not in the buffer.
cut_at_nul : err_code_pack_str 20 0 (some (65 ∷ 0 ∷ 66 ∷ [])) ≡ done (3, some (65 ∷ []))
unfolding err_code_pack_str str_codes before_nul get_last_err_code
cut_at_nul = refl
