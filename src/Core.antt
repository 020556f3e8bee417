-- ===== src/Core.antt =====
-- include/afx/core: the structures that an event manager owns.
pub mod HandleTable
pub mod TimerWheel
pub mod IoBuffer
pub mod Context
pub mod Histogram
pub mod FlightRecorder
pub mod EventManager
pub mod Arena
pub mod Pool
