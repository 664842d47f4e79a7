-- ===== src/Bags.antt =====
-- The bag pipeline: the recorder, the upload daemon and the ingest service, over one model of a
-- directory and of JSON.
pub mod Text
pub mod Disk
pub mod Layout
pub mod Publish
pub mod Dates
pub mod Recorder
pub mod Upload
pub mod Ingest
pub mod Pipeline
pub mod Examples
pub mod IngestExamples
