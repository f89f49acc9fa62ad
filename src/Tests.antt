-- ===== src/Tests.antt =====
-- The theorems at concrete inputs, and runs of the definitions.
mod Bundles
mod Catalogs
mod Resolutions
mod Guests
mod Runtimes
mod Futures
mod Values
mod Handles
mod Writers
mod Loops
mod Loans
mod Arrays
mod Hosts
