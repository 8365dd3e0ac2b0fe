-- ===== src/Dns/Code.antt =====
-- The numbers behind dnspython's names (RFC 1035, 2671, 2930, 8945).
use honeycow.Prelude.{ℕ}

abbrev pub class_in : ℕ
class_in = 1

abbrev pub class_ch : ℕ
class_ch = 3

-- Flags of the header.
abbrev pub qr : ℕ
qr = 0x8000

abbrev pub aa : ℕ
aa = 0x400

abbrev pub tc : ℕ
tc = 0x200

abbrev pub rd : ℕ
rd = 0x100

abbrev pub ra : ℕ
ra = 0x80

-- Response codes.
abbrev pub noerror : ℕ
noerror = 0

abbrev pub formerr : ℕ
formerr = 1

abbrev pub servfail : ℕ
servfail = 2

abbrev pub notimp : ℕ
notimp = 4

abbrev pub refused : ℕ
refused = 5

-- The opcode of a plain query.
abbrev pub query : ℕ
query = 0

abbrev pub type_a : ℕ
type_a = 1

abbrev pub type_ns : ℕ
type_ns = 2

abbrev pub type_soa : ℕ
type_soa = 6

abbrev pub type_hinfo : ℕ
type_hinfo = 13

abbrev pub type_mx : ℕ
type_mx = 15

abbrev pub type_txt : ℕ
type_txt = 16

abbrev pub type_aaaa : ℕ
type_aaaa = 28

abbrev pub type_opt : ℕ
type_opt = 41

abbrev pub type_tkey : ℕ
type_tkey = 249

abbrev pub type_tsig : ℕ
type_tsig = 250

abbrev pub type_ixfr : ℕ
type_ixfr = 251

abbrev pub type_axfr : ℕ
type_axfr = 252

abbrev pub type_mailb : ℕ
type_mailb = 253

abbrev pub type_maila : ℕ
type_maila = 254

abbrev pub type_any : ℕ
type_any = 255
