-- ===== src/Endpoints.antt =====
-- machines-endpoints: the ports, the addresses, the two ConfigMaps, and the EndpointSlices.
pub mod Machines
pub mod Ports
pub mod Slices
pub mod Main
