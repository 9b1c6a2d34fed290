-- ===== src/Tests.antt =====
-- Concrete inputs at which the hypotheses of the theorems hold.
mod Kernel
mod Process
mod Handles
mod Race
mod Written
mod Descriptors
mod Calm
mod Cache
mod Numbers
mod Polling
mod Cells
mod Parsers
