-- ===== src/Dhcp.antt =====
-- internal/adapters/dhcpwindows: IPv4 scopes of a Windows DHCP server.
pub mod Addr
pub mod RoundTrip
pub mod Env
pub mod Create
pub mod Update
pub mod EffectiveRange
pub mod Drift
pub mod Client
pub mod Operations
pub mod Masks
pub mod Subnet
pub mod Ranges
pub mod HostRange
pub mod ValidInput
pub mod RangeWays
pub mod Resize
pub mod NamesOnce
pub mod Ledger
pub mod Identities
pub mod Promises
pub mod Parameters
mod Tests
