-- ===== src/IpChecking.antt =====
-- pkg/ipchecking: the search for a second owner of an address, by ARP for IPv4 and by NDP for IPv6.
pub mod Arp
pub mod Ndp
