-- ===== src/Lib.antt =====
-- The CNI plugins `router` and `veth` (plugins/router, plugins/veth) and their library (pkg). A
-- container runtime runs one of them after another plugin has given the pod an interface; it reads
-- a configuration and the previous result, and then sets rules, routes, neighbours, hardware
-- addresses and kernel parameters on the host and in the pod's network namespace.
--
-- Parts, by file:
--   Base, Base/*: lists, texts as bytes, integers with the wrap-around of 64 bits.
--   Net, Net/Mac, Net/Equal: what Go's `net` and the netlink library's records give the plugins.
--   World: the outside. Each call that leaves the program is a value of `Call`; its answer is the
--     parameter `Env`, a function of all earlier calls. A Go function is an action that returns a
--     value, an error or a panic, and the calls that it made are its trace, with the namespace of
--     each. World/Calls has the calls, World/Keeps the rules for invariants of traces, World/Runs
--     and World/Parsed those for exact runs, World/Succeeds those for runs that succeed, whose
--     trace may change its kind on the way.
--   Types: pkg/types/types.go. Constant: pkg/constant. Config: pkg/config/config.go, with Laws and
--     Filled about what it accepts and fills in.
--   Utils/Rules: HijackCustomSubnet, ruleAdd, toRuleAdd, AddFromRuleTable, AddToRuleTable and
--     RuleDel of pkg/utils/utils.go. Safety has what they may do for any answers, Exact what they
--     do where the kernel accepts.
--   Utils/Routes: RouteAdd, MigrateRoute, moveRouteTable, GetNextHopIPs and AddrListByName, with
--     Safety and Exact as above, and Migrate for the settings and errors of MigrateRoute. Calls has
--     the calls for one route, Tables the pod's routes as a set and what moving an interface's
--     routes does to it, Moved, Refine and Quiet compare the code with that, and Order is about the
--     order of its calls. Defaults says which destinations the test for a default route matches,
--     Ipv6 is about the IPv6 default route, and Refused about a default route whose copy is refused.
--   Utils/Names: GetRuleNumber, GetDefaultRouteInterface, compareInterfaceName; Decimal has
--     strconv's conversions, Numbering the tables of net1, net2 and so on.
--   Utils/Sysctl: SysctlRPFilter, setRPFilter, EnableIpv6Sysctl, CheckInterfaceMiss; Store, Loops
--     and Writes compare them with one operation on a store of parameters, Writes/Again is about a
--     second run.
--   Utils/Neighbors: AddStaticNeighTable, NeighborAdd, parseMac; RoundTrip follows a hardware
--     address through its text, Exact has the neighbours that are added.
--   Utils/Addresses: GetHostIps, GetChainedInterfaceIps; Wanted says which interfaces and
--     addresses are selected, and Selected has the addresses that are returned.
--   Utils/MacAddress: OverwriteMacAddress, inetAton, convertHex2Mac; Suffix and Overwrite are about
--     the hardware address that is made and given.
--   Logging: pkg/logging/log.go. IpChecking/Arp, IpChecking/Ndp: pkg/ipchecking; Replies, Silence,
--     Rounds and Heard are about what the checks conclude.
--   Networking: pkg/networking/networking.go; Distinct and Members are about the host's addresses.
--   Plugin: what the two mains share. ReadsOnly, Quiet: the parts of it that change nothing;
--     Boundary: the parts that both run, for every bound on what they change; Success, Starts,
--     Links and Accepts: runs in which the outside answers; Refuses: runs that fail before a
--     change; Effect: steps that leave the pod's routes as they are.
--   Router, Router/Routes: plugins/router/router.go; Boundary: what its cmdAdd may change, with
--     Conflict for an address in use; Success, Success/Command: when it succeeds; Effect,
--     Effect/Leaves: what its changes of the networks make of the pod's routes.
--     Router/Routes/Exact: the rules and routes of addChainedIPRoute.
--   Veth, Veth/Pair, Veth/Setup: plugins/veth; Setup/Exact and Setup/Neighborhood have the calls of
--     setupRoutes and setupNeighborhood; Load, Boundary, Boundary/Conflict and Delete are about
--     what its commands change, Effect and Effect/Leaves about the pod's routes, Success about the
--     run with a veth0 that is there, Success/First about the run that makes it.
--   Tests: a small host, and the theorems at work on it.
--
-- A long Go function is cut into definitions at its early returns; each says which part it is.
-- Loops are recursion over the list. Printing a number takes 20 rounds, which is enough for 64
-- bits. The NDP check takes as many rounds as it is configured to try; the two goroutines of the
-- ARP check take their steps in the order of a list of events, which the scheduler and the network
-- choose.
--
-- Not modelled: the vendored libraries (netlink, the CNI libraries, spiderpool's helpers, arp, ndp,
-- the logger) and Go's own parsers of prefixes and durations, which are parameters; JSON and the
-- conversion of the previous result, which are the parameter `Json`; the arguments of formatted
-- messages and what is logged; the deferred Close of the pod's namespace in cmdAdd and of the
-- connection in the NDP check, whose errors the code does not look at; pkg/schema, and the tests and
-- charts.
pub mod Base
pub mod Net
pub mod World
pub mod Constant
pub mod Types
pub mod Config
pub mod Utils
pub mod Logging
pub mod IpChecking
pub mod Networking
pub mod Plugin
pub mod Router
pub mod Veth
mod Tests
