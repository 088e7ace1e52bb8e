-- ===== src/Input.antt =====
-- internal/input: the injectors, one per platform.
pub mod Linux
pub mod Windows
pub mod Darwin
