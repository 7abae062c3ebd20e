-- ===== src/Dhcpd.antt =====
-- internal/dhcpd: the DHCP server. The children model its parts.
pub mod BitSet
pub mod IpRange
pub mod Hostname
pub mod Server
pub mod Static
pub mod Alloc
pub mod Handlers
