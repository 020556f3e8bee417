-- ===== src/Itc.antt =====
-- include/afx/itc: rings, channels and mailboxes between threads.
pub mod SpscRing
pub mod Channel
pub mod Mailbox
pub mod MpscRing
pub mod Barrier
