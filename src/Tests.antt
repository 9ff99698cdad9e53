-- ===== src/Tests.antt =====
-- Runs of the modelled code on concrete inputs, and the theorems at inputs that meet their
-- conditions. One module for each component.
mod Client
mod Config
mod Handler
mod Request
mod RoundTrip
mod Server
mod Loop
mod Main
