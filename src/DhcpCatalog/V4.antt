-- ===== src/DhcpCatalog/V4.antt =====
-- The groups of `DHCP_OPTIONS` of server/src/utils/dhcp-options.js but the last, as the catalog has them.
use cidrella.Base.{List, [], ◌∷◌}
use cidrella.Base.Text.{codes}
use cidrella.DhcpCatalog.Entries.{
  DhcpOption, option, with_choices, ip, ip_list, text, text_list, number, select,
}

abbrev pub common_options : List DhcpOption
common_options =
    option 1 "subnet-mask" "Subnet Mask" ip "Common" "RFC 2132"
      "https://datatracker.ietf.org/doc/html/rfc2132#section-3.3"
      "Subnet mask for the client's network interface."
    ∷ option 3 "router" "Gateway / Router" ip_list "Common" "RFC 2132"
        "https://datatracker.ietf.org/doc/html/rfc2132#section-3.5"
        "Default gateway routers, listed in order of preference."
    ∷ option 6 "dns-server" "DNS Servers" ip_list "Common" "RFC 2132"
        "https://datatracker.ietf.org/doc/html/rfc2132#section-3.8"
        "DNS recursive name servers available to the client."
    ∷ option 15 "domain-name" "Domain Name" text "Common" "RFC 2132"
        "https://datatracker.ietf.org/doc/html/rfc2132#section-3.17"
        "Domain name the client should use for DNS hostname resolution."
    ∷ option 26 "mtu" "Interface MTU" number "Common" "RFC 2132"
        "https://datatracker.ietf.org/doc/html/rfc2132#section-5.1"
        "Maximum transmission unit for the interface."
    ∷ option 28 "broadcast" "Broadcast Address" ip "Common" "RFC 2132"
        "https://datatracker.ietf.org/doc/html/rfc2132#section-5.3"
        "Broadcast address for the client's subnet."
    ∷ option 51 "lease-time" "Lease Time" number "Common" "RFC 2132"
        "https://datatracker.ietf.org/doc/html/rfc2132#section-9.2"
        "IP address lease time in seconds."
    ∷ []

abbrev pub network_options : List DhcpOption
network_options =
    option 2 "time-offset" "Time Offset" number "Network" "RFC 2132"
      "https://datatracker.ietf.org/doc/html/rfc2132#section-3.4"
      "UTC offset in seconds for the client's subnet."
    ∷ option 4 "time-server" "Time Servers (RFC 868)" ip_list "Network" "RFC 2132"
        "https://datatracker.ietf.org/doc/html/rfc2132#section-3.6"
        "RFC 868 time servers available to the client."
    ∷ option 5 "name-server" "IEN 116 Name Servers" ip_list "Network" "RFC 2132"
        "https://datatracker.ietf.org/doc/html/rfc2132#section-3.7"
        "IEN 116 name servers available to the client."
    ∷ option 21 "policy-filter" "Policy Filter" text "Network" "RFC 2132"
        "https://datatracker.ietf.org/doc/html/rfc2132#section-4.4"
        "Policy filters for non-local source-routed datagrams (IP/mask pairs)."
    ∷ with_choices (codes "0" ∷ codes "1" ∷ []) (
        option 31 "router-discovery" "Router Discovery" select "Network" "RFC 2132"
          "https://datatracker.ietf.org/doc/html/rfc2132#section-5.6"
          "Whether the client should perform ICMP router discovery.")
    ∷ option 32 "router-solicitation" "Router Solicitation Address" ip "Network" "RFC 2132"
        "https://datatracker.ietf.org/doc/html/rfc2132#section-5.7"
        "Address to which the client transmits router solicitation requests."
    ∷ option 33 "static-route" "Static Routes" text "Network" "RFC 2132"
        "https://datatracker.ietf.org/doc/html/rfc2132#section-5.8"
        "List of destination/router pairs the client should install. Superseded by option 121."
    ∷ with_choices (codes "0" ∷ codes "1" ∷ []) (
        option 34 "trailer-encap" "Trailer Encapsulation" select "Network" "RFC 2132"
          "https://datatracker.ietf.org/doc/html/rfc2132#section-5.9"
          "Whether the client should negotiate trailer encapsulation.")
    ∷ option 35 "arp-timeout" "ARP Cache Timeout" number "Network" "RFC 2132"
        "https://datatracker.ietf.org/doc/html/rfc2132#section-5.10"
        "Timeout in seconds for ARP cache entries."
    ∷ with_choices (codes "0" ∷ codes "1" ∷ []) (
        option 36 "ethernet-encap" "Ethernet Encapsulation" select "Network" "RFC 2132"
          "https://datatracker.ietf.org/doc/html/rfc2132#section-5.11"
          "Whether to use IEEE 802.3 (0) or Ethernet II (1) framing.")
    ∷ option 37 "tcp-default-ttl" "TCP Default TTL" number "Network" "RFC 2132"
        "https://datatracker.ietf.org/doc/html/rfc2132#section-5.12"
        "Default TTL for TCP segments (1-255)."
    ∷ option 38 "tcp-keepalive-interval" "TCP Keepalive Interval" number "Network" "RFC 2132"
        "https://datatracker.ietf.org/doc/html/rfc2132#section-5.13"
        "Interval in seconds between TCP keepalive messages. 0 disables."
    ∷ option 82 "relay-agent-info" "Relay Agent Information" text "Network" "RFC 3046"
        "https://datatracker.ietf.org/doc/html/rfc3046"
        "Information inserted by DHCP relay agents. Used for agent-based policies."
    ∷ option 121 "classless-static-route" "Classless Static Routes" text "Network" "RFC 3442"
        "https://datatracker.ietf.org/doc/html/rfc3442"
        "Classless static routes with CIDR notation. Supersedes option 33."
    ∷ []

abbrev pub dns_options : List DhcpOption
dns_options =
    option 12 "hostname" "Hostname" text "DNS" "RFC 2132"
      "https://datatracker.ietf.org/doc/html/rfc2132#section-3.14" "Hostname for the client."
    ∷ option 40 "nis-domain" "NIS Domain Name" text "DNS" "RFC 2132"
        "https://datatracker.ietf.org/doc/html/rfc2132#section-8.1"
        "Network Information Service (NIS) domain name."
    ∷ option 41 "nis-server" "NIS Servers" ip_list "DNS" "RFC 2132"
        "https://datatracker.ietf.org/doc/html/rfc2132#section-8.2"
        "NIS server addresses, in order of preference."
    ∷ option 119 "domain-search" "DNS Search List" text_list "Common" "RFC 3397"
        "https://datatracker.ietf.org/doc/html/rfc3397"
        "Domain search list for hostname resolution."
    ∷ []

abbrev pub time_options : List DhcpOption
time_options =
    option 42 "ntp-server" "NTP Servers" ip_list "Common" "RFC 2132"
      "https://datatracker.ietf.org/doc/html/rfc2132#section-8.3"
      "NTP server addresses, in order of preference. Enter hostnames or IPs, hostnames are resolved automatically."
    ∷ []

abbrev pub boot_options : List DhcpOption
boot_options =
    option 13 "boot-file-size" "Boot File Size" number "Boot/PXE" "RFC 2132"
      "https://datatracker.ietf.org/doc/html/rfc2132#section-3.15"
      "Length of the default boot image in 512-octet blocks."
    ∷ option 43 "vendor-specific" "Vendor-Specific Info" text "Boot/PXE" "RFC 2132"
        "https://datatracker.ietf.org/doc/html/rfc2132#section-8.4"
        "Vendor-specific information, interpreted by vendor code on the client."
    ∷ option 60 "vendor-class" "Vendor Class ID" text "Boot/PXE" "RFC 2132"
        "https://datatracker.ietf.org/doc/html/rfc2132#section-9.13"
        "Vendor class identifier used to distinguish vendor-type clients."
    ∷ option 66 "tftp-server" "TFTP Server Name" text "Boot/PXE" "RFC 2132"
        "https://datatracker.ietf.org/doc/html/rfc2132#section-9.4"
        "TFTP server hostname for network boot."
    ∷ option 67 "bootfile-name" "Bootfile Name" text "Boot/PXE" "RFC 2132"
        "https://datatracker.ietf.org/doc/html/rfc2132#section-9.5"
        "Name of the boot file for network boot (PXE)."
    ∷ option 150 "tftp-server-address" "TFTP Server Address (Cisco)" ip "Boot/PXE" "RFC 5859"
        "https://datatracker.ietf.org/doc/html/rfc5859"
        "TFTP server IP address. Commonly used by Cisco IP phones."
    ∷ option 252 "wpad-url" "WPAD URL" text "Boot/PXE" "WPAD Draft"
        "https://datatracker.ietf.org/doc/html/draft-ietf-wrec-wpad-01"
        "Web Proxy Auto-Discovery URL for automatic proxy configuration."
    ∷ []

abbrev pub netbios_options : List DhcpOption
netbios_options =
    option 44 "netbios-ns" "NetBIOS Name Server (WINS)" ip_list "NetBIOS" "RFC 2132"
      "https://datatracker.ietf.org/doc/html/rfc2132#section-8.5"
      "NetBIOS over TCP/IP name server (WINS) addresses."
    ∷ option 45 "netbios-dd" "NetBIOS Datagram Dist" ip_list "NetBIOS" "RFC 2132"
        "https://datatracker.ietf.org/doc/html/rfc2132#section-8.6"
        "NetBIOS datagram distribution server addresses."
    ∷ with_choices (codes "1" ∷ codes "2" ∷ codes "4" ∷ codes "8" ∷ []) (
        option 46 "netbios-nodetype" "NetBIOS Node Type" select "NetBIOS" "RFC 2132"
          "https://datatracker.ietf.org/doc/html/rfc2132#section-8.7"
          "NetBIOS node type: 1=B-node, 2=P-node, 4=M-node, 8=H-node.")
    ∷ option 47 "netbios-scope" "NetBIOS Scope" text "NetBIOS" "RFC 2132"
        "https://datatracker.ietf.org/doc/html/rfc2132#section-8.8"
        "NetBIOS over TCP/IP scope parameter."
    ∷ []
