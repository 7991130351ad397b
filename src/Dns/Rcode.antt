-- ===== src/Dns/Rcode.antt =====
-- Response codes.
use contractdb.Base.{ℕ}

abbrev pub success : ℕ
success = 0

abbrev pub format_error : ℕ
format_error = 1

abbrev pub server_failure : ℕ
server_failure = 2

abbrev pub name_error : ℕ
name_error = 3

abbrev pub refused : ℕ
refused = 5

abbrev pub yx_domain : ℕ
yx_domain = 6

abbrev pub yx_rrset : ℕ
yx_rrset = 7

abbrev pub nx_rrset : ℕ
nx_rrset = 8

abbrev pub not_zone : ℕ
not_zone = 10
