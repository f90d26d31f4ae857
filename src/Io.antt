-- ===== src/Io.antt =====
-- pkg/io: writing objects to the API server.
pub mod Applicator
pub mod Options
