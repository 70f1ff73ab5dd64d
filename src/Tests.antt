-- ===== src/Tests.antt =====
-- The theorems at concrete inputs, over the fixed-point floats of Base/Fixed.
mod Data
mod Halts
mod Actors
mod Monitors
mod Validities
mod Wals
mod Replays
mod Sizings
mod Portfolios
mod Positions
mod Managers
mod Admissions
mod Entries
mod Protections
mod Pipelines
mod Orders
mod Openings
mod Stackings
