-- ===== src/DhcpCatalog/V6.antt =====
-- The groups of `DHCP6_OPTIONS` of server/src/utils/dhcp-options.js.
use cidrella.Base.{List, [], ◌∷◌}
use cidrella.DhcpCatalog.Entries.{
  DhcpOption, option, as_built_in, ip_list, text, text_list, number, flag,
}

abbrev pub common_options_v6 : List DhcpOption
common_options_v6 =
    option 23 "dns-server" "DNS Servers" ip_list "Common" "RFC 3646"
      "https://datatracker.ietf.org/doc/html/rfc3646#section-3"
      "DNS recursive name servers available to the client, in order of preference. Defaults to CIDRella's IPv6 address on the network. Enter hostnames or IPv6 addresses, hostnames are resolved automatically."
    ∷ option 24 "domain-search" "Domain Search List" text_list "Common" "RFC 3646"
        "https://datatracker.ietf.org/doc/html/rfc3646#section-4"
        "Domain suffixes the client appends when resolving short names. Defaults to the network's domain."
    ∷ option 56 "ntp-server" "NTP Servers" ip_list "Common" "RFC 5908"
        "https://datatracker.ietf.org/doc/html/rfc5908"
        "NTP server addresses, in order of preference. Enter hostnames or IPv6 addresses, hostnames are resolved automatically."
    ∷ []

abbrev pub network_options_v6 : List DhcpOption
network_options_v6 =
    option 21 "sip-server-domain" "SIP Server Domains" text_list "Network" "RFC 3319"
      "https://datatracker.ietf.org/doc/html/rfc3319#section-3.1"
      "Domain names of SIP outbound proxy servers, in order of preference."
    ∷ option 22 "sip-server" "SIP Servers" ip_list "Network" "RFC 3319"
        "https://datatracker.ietf.org/doc/html/rfc3319#section-3.2"
        "IPv6 addresses of SIP outbound proxy servers, in order of preference."
    ∷ option 27 "nis-server" "NIS Servers" ip_list "Network" "RFC 3898"
        "https://datatracker.ietf.org/doc/html/rfc3898#section-3"
        "Network Information Service servers, in order of preference."
    ∷ option 28 "nis+-server" "NIS+ Servers" ip_list "Network" "RFC 3898"
        "https://datatracker.ietf.org/doc/html/rfc3898#section-4"
        "NIS+ servers, in order of preference."
    ∷ option 29 "nis-domain" "NIS Domain" text "Network" "RFC 3898"
        "https://datatracker.ietf.org/doc/html/rfc3898#section-5"
        "Network Information Service domain name."
    ∷ option 30 "nis+-domain" "NIS+ Domain" text "Network" "RFC 3898"
        "https://datatracker.ietf.org/doc/html/rfc3898#section-6" "NIS+ domain name."
    ∷ as_built_in (
        option 14 "rapid-commit" "Rapid Commit" flag "Network" "RFC 8415"
          "https://datatracker.ietf.org/doc/html/rfc8415#section-21.14"
          "Always on for stateful scopes. A client that asks for it in its Solicit gets its address in one Reply, two messages instead of four. The DHCP server always honors it, so there is nothing to set. With two stateful DHCPv6 servers on a link, each may commit a lease the client never uses until it expires.")
    ∷ option 103 "captive-portal" "Captive Portal URI" text "Network" "RFC 8910"
        "https://datatracker.ietf.org/doc/html/rfc8910#section-2"
        "URI of the captive portal API the client should consult before assuming open access."
    ∷ []

abbrev pub time_options_v6 : List DhcpOption
time_options_v6 =
    option 31 "sntp-server" "SNTP Servers" ip_list "Time" "RFC 4075"
      "https://datatracker.ietf.org/doc/html/rfc4075"
      "Simple NTP server addresses, for clients that do not understand the newer NTP Servers option (56)."
    ∷ option 32 "information-refresh-time" "Information Refresh Time" number "Time" "RFC 8415"
        "https://datatracker.ietf.org/doc/html/rfc8415#section-21.23"
        "Seconds a stateless client waits before asking for its options again. Only sent in reply to an Information-request; addresses use the lease time instead."
    ∷ option 41 "posix-timezone" "POSIX Time Zone" text "Time" "RFC 4833"
        "https://datatracker.ietf.org/doc/html/rfc4833#section-4.1"
        "Time zone as a POSIX TZ string, for example EST5EDT4,M3.2.0/02:00,M11.1.0/02:00."
    ∷ option 42 "tzdb-timezone" "TZ Database Time Zone" text "Time" "RFC 4833"
        "https://datatracker.ietf.org/doc/html/rfc4833#section-4.2"
        "Time zone as a TZ database name, for example America/New_York."
    ∷ []

abbrev pub boot_options_v6 : List DhcpOption
boot_options_v6 =
    option 59 "bootfile-url" "Boot File URL" text "Boot/PXE" "RFC 5970"
      "https://datatracker.ietf.org/doc/html/rfc5970#section-3.1"
      "URL of the network boot file, for example tftp://[fd00::10]/pxelinux.efi."
    ∷ option 60 "bootfile-param" "Boot File Parameters" text "Boot/PXE" "RFC 5970"
        "https://datatracker.ietf.org/doc/html/rfc5970#section-3.2"
        "Parameters passed to the network boot file."
    ∷ []
