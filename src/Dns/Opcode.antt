-- ===== src/Dns/Opcode.antt =====
-- Opcodes.
use contractdb.Base.{ℕ}

abbrev pub query : ℕ
query = 0

abbrev pub notify : ℕ
notify = 4

abbrev pub update : ℕ
update = 5
