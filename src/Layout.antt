-- ===== src/Layout.antt =====
-- cmd/wmii/frame.c, stack.c, column.c, area.c and view.c: how frames are linked into areas, and how a
-- column lays its frames out.
pub mod Links
pub mod Column
pub mod View
pub mod Mode
pub mod Widths
pub mod Stack
pub mod Fit
pub mod Struts
pub mod Areas
