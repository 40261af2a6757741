-- ===== src/Tests.antt =====
-- Runs of the definitions on small inputs, and the theorems at such inputs.
mod Setters
mod Checkword
mod Ipc
mod Groups
mod Sequence
mod Delivery
mod Crc
mod Charset
mod Store
mod Api
mod Tcp
mod Udp
mod Layout
mod System
mod Main
mod Cycle
mod Switch
mod Runs
mod Names
mod Delivered
mod Rds95
mod Af
mod Clock
