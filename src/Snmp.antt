-- ===== src/Snmp.antt =====
-- netpulse/infra.py: SNMP v2c messages in BER, written and read by hand.
pub mod Ber
pub mod Messages
mod Samples
