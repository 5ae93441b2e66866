-- ===== src/Contracts/Identifier.antt =====
-- `_require_identifier` of contracts.py. `_identifier` of design_contracts.py has the same body.
use cadrig.Base.{
  String, Bool, Result, ok, err, contract_error, not_identifier, too_long, ltb, if◌then◌else◌, not,
  ◌&&◌,
}
use cadrig.Base.Text.{count, is_blank}
use cadrig.Json.{Json, str}

unfoldable pub check_identifier : String → String → Result String
check_identifier s name =
    if is_blank s
    then err (contract_error (not_identifier name))
    else if ltb 128 (count s)
    then err (contract_error (too_long name))
    else ok s

unfoldable pub require_identifier : Json → String → Result String
unfolding check_identifier
require_identifier (str s) name = check_identifier s name
require_identifier _ name = err (contract_error (not_identifier name))

-- A text that `_require_identifier` accepts.
abbrev pub is_identifier : String → Bool
is_identifier s = not (is_blank s) && not (ltb 128 (count s))
