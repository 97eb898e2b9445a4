-- ===== src/Tests.antt =====
-- Runs of the model on concrete inputs, and the theorems at inputs that meet their hypotheses.
mod Readers
mod Writers
mod RoundTrips
mod Examples
mod Codes
