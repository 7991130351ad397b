-- ===== src/Dns/Kind.antt =====
-- Resource record types.
use contractdb.Base.{ℕ}

abbrev pub a : ℕ
a = 1

abbrev pub ns : ℕ
ns = 2

abbrev pub soa : ℕ
soa = 6

abbrev pub txt : ℕ
txt = 16

abbrev pub aaaa : ℕ
aaaa = 28

abbrev pub opt : ℕ
opt = 41

abbrev pub ixfr : ℕ
ixfr = 251

abbrev pub axfr : ℕ
axfr = 252

abbrev pub any : ℕ
any = 255

abbrev pub rrsig : ℕ
rrsig = 46

abbrev pub nsec : ℕ
nsec = 47

abbrev pub dnskey : ℕ
dnskey = 48

abbrev pub tsig : ℕ
tsig = 250
