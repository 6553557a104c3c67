-- ===== src/Drivers.antt =====
-- The drivers of platform/driver/src for the watchdog, pal_sp805_watchdog.c (Drivers/Sp805), the timers
-- of the reference clock, pal_ap_refclk_timer.c (Drivers/Refclk), and the non-volatile memory, pal_nvm.c
-- (Drivers/Memory). The platform's addresses and its MMIO calls are arguments.
mod Sp805
mod Refclk
mod Memory
mod Stored
mod Locked
mod Tests
mod Runs
