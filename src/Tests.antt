-- ===== src/Tests.antt =====
-- Concrete interfaces, sample data, and the theorems at inputs that meet their hypotheses.
mod Instances
mod WireInstance
mod TransportWitnesses
mod Samples
mod Witnesses
mod EncodingInstance
mod PacketWitnesses
mod ControlWitnesses
mod ClientWitnesses
mod RtctrlWitnesses
mod RunWitnesses
mod OrderWitnesses
mod DumpWitnesses
mod CdWitnesses
