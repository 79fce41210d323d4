-- ===== src/Ll.antt =====
-- src/ioHdlcll.c, the data-path transformations of the framed drivers.
pub mod Fcs
pub mod Transparency
