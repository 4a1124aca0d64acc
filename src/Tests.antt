-- ===== src/Tests.antt =====
-- Runs of the definitions, and the theorems at concrete inputs.
mod Rle
mod Plugin
mod Swizzle
mod Data
mod Api
mod Divided
mod Chosen
mod Host
mod Transfer
mod Transfers
mod Supports
mod Search
mod Through
mod Jpeg
mod Wrappers
