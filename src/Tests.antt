-- ===== src/Tests.antt =====
-- Runs of the model on small inputs, and instances of the theorems.
mod Bodies
mod Text
mod Signatures
mod Resources
mod Bytes
mod Collector
mod Maps
mod Links
