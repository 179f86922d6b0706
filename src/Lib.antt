-- ===== src/Lib.antt =====
-- CIDRella's core: a model of the server's address and CIDR utilities, of what is planned from them
-- (DHCP pools, gateways, range history, allowlist), of the options that DHCP scopes serve, of the
-- encrypted upstream connections, of the hooks that rewrite the configuration, and of the checks on
-- requests, roles and passwords, with the theorems that they are right.
--
-- Parts, and how they interact
--   * Address texts, server/src/utils/address.js (Address.antt; Address/Format.antt for `formatIp`,
--     `canonicalizeIp` and `sortKey`). `parse_ip` is `parseIp`, `parse_v4` and `parse_v6` are its
--     two parsers, `format_ip` is `formatIp`, `canonicalize_ip` is `canonicalizeIp` and `sort_key`
--     is `sortKey`. A text is a list of UTF-16 code units, and a BigInt a natural number.
--   * CIDR arithmetic, server/src/utils/cidr.js (Cidr.antt; Cidr/Divide.antt for `subtractNetwork`
--     and `splitNetwork`; Cidr/Merge.antt for `mergeNetworks`), on top of the former. `parse_network`
--     is `parseNetwork`, and its result the record `Network`. A function that throws returns `none`.
--   * Supernet bounds (Cidr/Reserved.antt): `validateNetworkBounds` and `RESERVED_RANGES` of
--     server/src/utils/cidr.js, `isGloballyRoutableCidr` of server/src/utils/ip.js.
--   * Allowlist entries, server/src/utils/cidr-match.js (Allowlist.antt), on the same parser with the
--     options `STRICT`. An entry is the record `CidrEntry`.
--   * Range history, server/src/models/range.js (RangeHistory.antt): the coverage of a network's custom
--     range types before and after a write, and the events that the write records. What the database
--     returns is an argument, and what is inserted is the result.
--   * The IPv4 layer and the DHCPv6 modes of server/src/utils/cidr.js (Cidr/Ipv4.antt).
--   * Automatic DHCP pools (DhcpPool.antt): `defaultDhcpPoolForSubnet` and
--     `defaultDhcpV6PoolForSubnet` of server/src/services/subnet-dhcp-topology.js. The factors 0.35 and
--     0.15 are taken in hundredths.
--   * Gateway policies (Gateway.antt): `gatewayPolicyForAddress` and `resolveGatewayAddress` of
--     server/src/services/subnet-topology.js.
--   * Encrypted upstreams, server/src/utils/upstream-pool.js, and the framing of messages of
--     server/src/utils/dns-wire.js (Upstream.antt; Upstream/Pipeline.antt for `DotConnection`). The loop
--     of `query` over the addresses is `query_from`; a parameter tells what the n-th send to an address
--     results in. `allocateId` is `allocate_id`, `send` is `dot_send`, and `onData` is `on_data` for the
--     bytes and `deliver_all` for the messages in them. A state has the calls in flight by their ids.
--   * Configuration values, server/src/utils/config-value-validation.js (ConfigValue.antt): the checks
--     on what lands in a line of a configuration file, one function each.
--   * DHCP options: the catalogs of server/src/utils/dhcp-options.js (DhcpCatalog.antt; its groups in
--     DhcpCatalog/V4.antt, DhcpCatalog/Ancient.antt and DhcpCatalog/V6.antt), and what may be set
--     (DhcpOptions.antt): `isOptionCodeAllowed`, the lease times of server/src/utils/lease-time.js, and
--     `validateScopeOption`, `validateDefaultOption` and `defaultsBodyError` of
--     server/src/routes/dhcp.js. They use the checks on configuration values.
--   * Served scopes (DhcpScope.antt): the options of a scope in
--     server/src/backends/shared/dhcp-scope-model.js. `v4_options` and `v6_options` merge the sources,
--     `option_value` resolves and checks a value with the address parser, the catalogs and the checks
--     above, and `scope_options` is the loop over a scope's options. A `Map` is a list of entries in the
--     order of insertion. The cache of resolved names is passed from step to step.
--   * Effective options, `resolveEffectiveScopeOptions` of server/src/models/dhcp-scope.js
--     (DhcpEffective.antt): what the rows, the defaults, the columns of a scope and its network give. Its
--     result is what served scopes start from.
--   * Outbound requests, server/src/utils/url-guard.js (UrlGuard.antt): `validate_outbound_url` is
--     `validateOutboundUrl`, with the address parser and the CIDR arithmetic below it. `net.isIP`, the
--     parser of URLs and the lookup of names are parameters.
--   * Hooks after a commit, server/src/utils/after-commit.js and
--     server/src/models/configuration-generation.js (Hooks.antt). A state has the flags and the row of
--     each hook, its tasks, and the holds; `step` is what an event does: the end of a response
--     (`afterCommitMiddleware`), `queueRegen`, a microtask that starts, a promise that settles,
--     `holdHooks` and its release, and `resumePendingRegeneration`. Steps are taken in any order.
--   * Liveness from DNS queries, server/src/utils/ip-liveness.js (Liveness.antt): `should_ignore_ip` is
--     `shouldIgnoreIp`, `prune_debounce` is `pruneDebounce`, and `record_dns_query_liveness` is
--     `recordDnsQueryLiveness` up to the observation itself, which is taken to succeed.
--   * DHCP unique identifiers, server/src/utils/duid.js (Duid.antt), one function each.
--   * Scan coverage, server/src/utils/scan-coverage.js (ScanCoverage.antt): `interval_to_ms` is
--     `intervalToMs`, and `covered_interval` is what the part of `scannerCoveredSql` on the interval
--     says, with the `TRIM` of SQLite as `sql_trim`.
--   * Password policy, server/src/auth/password-policy.js (PasswordPolicy.antt): `password_policy_error` is
--     `passwordPolicyError`, `validate_policy_patch` is `validatePolicyPatch`, `effective_password_policy` is
--     `effectivePasswordPolicy`, and `store_all` is `upsertSettings` of server/src/models/setting.js.
--   * Versions, server/src/utils/semver.js (Semver.antt): `compare_semver` is `compareSemver`.
--   * Roles, server/src/auth/roles.js and server/src/auth/require-perm.js (Roles.antt).
--   * Base.antt and the files below it hold what the parts share: Boolean tests, lists, the operations
--     `&`, `|` and `^` as arithmetic, powers of two, and the string operations of the language.
--
-- Bounds and fuel
--   `formatIp` looks for the longest zero run in eight groups, and each round of the loop moves on by
--   one group at least: fuel 8. `toString(radix)` divides by the radix: fuel `n + 1`. The loop of
--   `subtractNetwork` runs once for each prefix bit between child and parent, and that of
--   `splitNetwork` once for each child; both are structural recursion. `extractTcpMessages` takes two
--   bytes at least in a round: its fuel is the length of the buffer. `allocateId` tries each of the 65536 ids once.
--
-- Not modelled
--   Arguments of another type than the functions document (a number for a text), and the texts of
--   error messages. A result field that repeats another one, as `broadcastLong` does `lastBig`, is
--   left out. A `Date` or a number above 2^53, which JavaScript rounds. Object keys
--   that every object has (`constructor`) as a role. Sockets, timers, TLS and HTTP/2, and the statements that read and write the database.
pub mod Base
pub mod Address
pub mod Cidr
pub mod Allowlist
pub mod RangeHistory
pub mod DhcpPool
pub mod Upstream
pub mod Gateway
pub mod ConfigValue
pub mod DhcpCatalog
pub mod DhcpOptions
pub mod DhcpScope
pub mod DhcpEffective
pub mod Hooks
pub mod Liveness
pub mod Duid
pub mod ScanCoverage
pub mod PasswordPolicy
pub mod Semver
pub mod Roles
pub mod UrlGuard
pub mod Tests
