-- ===== src/Hist/Put.antt =====
-- `histput`: what each of its branches does to the queue of pending entries.
pub mod Rising
pub mod Newer
pub mod Late
