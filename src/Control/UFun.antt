-- ===== src/Control/UFun.antt =====
-- include/ioHdlc.h, the function bits of an unnumbered frame, `IOHDLC_U_*`.
use io_hdlc.Base.{ℕ}

abbrev pub fun_mask : ℕ
fun_mask = 0xec

abbrev pub snrm : ℕ
snrm = 0x80

abbrev pub sarm : ℕ
sarm = 0x0c

abbrev pub sabm : ℕ
sabm = 0x2c

abbrev pub disc : ℕ
disc = 0x40

abbrev pub ui : ℕ
ui = 0x00

abbrev pub test : ℕ
test = 0xe0

abbrev pub ua : ℕ
ua = 0x60

abbrev pub frmr : ℕ
frmr = 0x84

abbrev pub dm : ℕ
dm = 0x0c
