-- ===== src/Tests.antt =====
-- Runs of the model on concrete inputs, and the theorems at inputs where their hypotheses hold.
mod Toy
mod Protocol
mod Util
mod Session
mod Server
mod Client
mod Udp
mod Config
mod Tunnel
