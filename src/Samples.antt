-- ===== src/Samples.antt =====
-- Concrete instances of what the model takes as parameters, for the tests: they show that the laws
-- asked of serde_json and prost can hold together.
pub mod Serial
pub mod JsonSample
pub mod MessageSamples
pub mod ProstSample
