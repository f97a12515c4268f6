-- ===== src/Simulation.antt =====
-- src/simulation: the generator of the telemetry, and its consumer.
pub mod TelemetryGenerator
pub mod LapTimeConsumer
