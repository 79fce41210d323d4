-- ===== src/Control/SFun.antt =====
-- include/ioHdlc.h, the function bits of a supervisory frame, `IOHDLC_S_*`.
use io_hdlc.Base.{ℕ}

abbrev pub fun_mask : ℕ
fun_mask = 0x0c

abbrev pub rr : ℕ
rr = 0x00

abbrev pub rej : ℕ
rej = 0x08

abbrev pub rnr : ℕ
rnr = 0x04

abbrev pub srej : ℕ
srej = 0x0c
