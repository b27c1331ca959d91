-- ===== src/Tests.antt =====
-- The theorems at concrete inputs, and runs of the definitions.
mod Images
mod HexFiles
mod Devices
mod Programmers
mod ElfFiles
mod ElfLayouts
mod Systems
mod Testers
