-- ===== src/Wsl2Helper.antt =====
-- wsl2_helper/main.cpp: the helper that runs inside WSL and connects a UNIX domain socket there to a
-- libassuan socket on the Windows side.
pub mod Stream
pub mod Options
pub mod Sessions
