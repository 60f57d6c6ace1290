-- ===== src/ErrCodes.antt =====
-- src/cros_err_codes.c: packs of up to four error codes in a 32-bit word, the newest in the lowest
-- byte.
pub mod Catalog
pub mod Pack
pub mod Print
mod Tests
use Prim.Native.Nat.{bit_or}
use Prim.Native.String.{String}
use cros.Common.{
  List, Option, [], false, if◌then◌else◌, none, some, suc, true, zero, ℕ, ◌%◌, ◌*◌, ◌+◌, ◌/◌, ◌==◌,
  ◌^◌, ◌∷◌,
}
use cros.Mem.{Run, done, no_fuel}
use Catalog.{no_err, last_err_list_code, messages}

-- An entry of CRosErrCodeList.
abbrev pub Entry : Type 0
Entry = ℕ × Option String

-- The loop of cRosGetErrCodeStr over the list from an index on; NULL at the sentinel.
pub find_msg : List Entry → ℕ → Option String
find_msg [] err_code = none
find_msg ((code, msg) ∷ rest) err_code =
    if code == last_err_list_code
    then none
    else if code == err_code
    then msg
    else find_msg rest err_code

-- The messages with their codes, then the sentinel twice, as the list macro and the array give it.
pub code_list : ℕ → List String → List Entry
code_list code [] = (code, some "") ∷ (last_err_list_code, none) ∷ []
code_list code (msg ∷ rest) = (code, some msg) ∷ code_list (code + 1) rest

pub get_err_code_str : ℕ → Option String
unfolding find_msg code_list
get_err_code_str err_code = find_msg (code_list 0 messages) err_code

-- cRosAddErrCode: `(prev_err_pack << 8) | err_code` in 32 bits.
pub add_err_code : ℕ → ℕ → ℕ
add_err_code prev err_code =
    if err_code == no_err then prev else bit_or (prev * 256 % 2 ^ 32) err_code

-- CROS_SUCCESS_ERR_PACK
abbrev pub success_err_pack : ℕ
success_err_pack = 0

pub add_err_code_if_err : ℕ → ℕ → ℕ
add_err_code_if_err prev err_code =
    if prev == success_err_pack then prev else add_err_code prev err_code

pub remove_last_err_code : ℕ → ℕ
remove_last_err_code prev = prev / 256

-- `err_pack & 0xFF`
pub get_last_err_code : ℕ → ℕ
get_last_err_code pack = pack % 256

-- The loop of cRosAddErrCodePackIfErr; the fuel is one more than the codes of a pack.
pub add_codes : ℕ → ℕ → ℕ → Run ℕ
add_codes zero acc pack = no_fuel
add_codes (suc fuel) acc pack = elim (get_last_err_code pack == no_err) [
  | true ↦ done acc
  | false ↦ add_codes fuel (add_err_code acc (get_last_err_code pack)) (remove_last_err_code pack)
]

pub add_err_code_pack_if_err : ℕ → ℕ → Run ℕ
add_err_code_pack_if_err pack_0 pack_1 = add_codes 5 pack_0 pack_1
