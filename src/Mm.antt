-- ===== src/Mm.antt =====
-- mm.c: physical frames (`Frames`), page tables (`Paging`), and both together (`Isolation`).
pub mod Frames
pub mod Paging
pub mod Isolation
