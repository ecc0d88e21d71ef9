-- ===== src/Time.antt =====
-- time/ and the clock arithmetic of timer/.
pub mod Convert
pub mod Sleep
pub mod Ticks
