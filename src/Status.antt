-- ===== src/Status.antt =====
-- The status codes of libs/interface_cpp/include/mapit/errorcodes.h that the modelled code returns.
use mapit.Base.{ℕ, Bool, ◌==◌}

abbrev pub ok : ℕ
ok = 0

abbrev pub error : ℕ
error = 1

abbrev pub db_not_found : ℕ
db_not_found = 12

abbrev pub db_corruption : ℕ
db_corruption = 13

abbrev pub db_io_error : ℕ
db_io_error = 16

abbrev pub operator_not_found : ℕ
operator_not_found = 100

abbrev pub invalid_argument : ℕ
invalid_argument = 102

abbrev pub entity_not_found : ℕ
entity_not_found = 105

abbrev pub branch_already_exists : ℕ
branch_already_exists = 108

abbrev pub invalid_data : ℕ
invalid_data = 109

abbrev pub not_yet_implemented : ℕ
not_yet_implemented = 200

abbrev pub unknown : ℕ
unknown = 666

-- `mapitIsOk`
abbrev pub is_ok : ℕ → Bool
is_ok s = s == ok
