-- ===== src/NecoExporter.antt =====
-- neco-exporter/pkg: the scrape loop, the metric names, and the collector of NIC interrupts.
pub mod Name
pub mod Scrape
pub mod NicIrq
pub mod Labels
