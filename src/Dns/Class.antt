-- ===== src/Dns/Class.antt =====
-- Classes.
use contractdb.Base.{ℕ}

abbrev pub inet : ℕ
inet = 1

abbrev pub none_ : ℕ
none_ = 254

abbrev pub any : ℕ
any = 255
