-- ===== src/DhcpCatalog/Ancient.antt =====
-- The group "Ancient History" of `DHCP_OPTIONS` of server/src/utils/dhcp-options.js, in three parts.
use cidrella.Base.{List, [], ◌∷◌}
use cidrella.Base.Text.{codes}
use cidrella.DhcpCatalog.Entries.{
  DhcpOption, option, with_choices, ip, ip_list, text, number, select,
}

abbrev pub ancient_options_first : List DhcpOption
ancient_options_first =
    option 7 "log-server" "Log Server" ip_list "Ancient History" "RFC 2132"
      "https://datatracker.ietf.org/doc/html/rfc2132#section-3.9"
      "MIT-LCS UDP log server addresses."
    ∷ option 8 "cookie-server" "Cookie Server" ip_list "Ancient History" "RFC 2132"
        "https://datatracker.ietf.org/doc/html/rfc2132#section-3.10"
        "RFC 865 cookie/quote-of-the-day server addresses."
    ∷ option 9 "lpr-server" "LPR Server" ip_list "Ancient History" "RFC 2132"
        "https://datatracker.ietf.org/doc/html/rfc2132#section-3.11"
        "Line printer (LPR) server addresses."
    ∷ option 10 "impress-server" "Impress Server" ip_list "Ancient History" "RFC 2132"
        "https://datatracker.ietf.org/doc/html/rfc2132#section-3.12"
        "Imagen Impress network image server addresses."
    ∷ option 11 "rlp-server" "Resource Location Server" ip_list "Ancient History" "RFC 2132"
        "https://datatracker.ietf.org/doc/html/rfc2132#section-3.13"
        "RFC 887 Resource Location Protocol server addresses."
    ∷ option 14 "merit-dump-file" "Merit Dump File" text "Ancient History" "RFC 2132"
        "https://datatracker.ietf.org/doc/html/rfc2132#section-3.16"
        "Path name for a file to dump core image on crash."
    ∷ option 16 "swap-server" "Swap Server" ip "Ancient History" "RFC 2132"
        "https://datatracker.ietf.org/doc/html/rfc2132#section-3.18"
        "IP address of the client's swap server."
    ∷ option 17 "root-path" "Root Path" text "Ancient History" "RFC 2132"
        "https://datatracker.ietf.org/doc/html/rfc2132#section-3.19"
        "Path name for the client's root disk."
    ∷ option 18 "extensions-path" "Extensions Path" text "Ancient History" "RFC 2132"
        "https://datatracker.ietf.org/doc/html/rfc2132#section-3.20"
        "Path to a file with additional DHCP-like vendor extensions."
    ∷ with_choices (codes "0" ∷ codes "1" ∷ []) (
        option 19 "ip-forwarding" "IP Forwarding" select "Ancient History" "RFC 2132"
          "https://datatracker.ietf.org/doc/html/rfc2132#section-4.1"
          "Enable (1) or disable (0) IP packet forwarding on the client.")
    ∷ with_choices (codes "0" ∷ codes "1" ∷ []) (
        option 20 "non-local-source-route" "Non-Local Source Routing" select "Ancient History"
          "RFC 2132" "https://datatracker.ietf.org/doc/html/rfc2132#section-4.2"
          "Enable (1) or disable (0) forwarding of non-local source-routed datagrams.")
    ∷ option 22 "max-dgram-reassembly" "Max Datagram Reassembly" number "Ancient History" "RFC 2132"
        "https://datatracker.ietf.org/doc/html/rfc2132#section-4.5"
        "Maximum datagram size the client should reassemble (min 576)."
    ∷ []

abbrev pub ancient_options_middle : List DhcpOption
ancient_options_middle =
    option 23 "default-ip-ttl" "Default IP TTL" number "Ancient History" "RFC 2132"
      "https://datatracker.ietf.org/doc/html/rfc2132#section-4.6"
      "Default time-to-live for outgoing IP datagrams (1-255)."
    ∷ option 24 "mtu-aging-timeout" "Path MTU Aging Timeout" number "Ancient History" "RFC 2132"
        "https://datatracker.ietf.org/doc/html/rfc2132#section-4.7"
        "Timeout in seconds for aging Path MTU values discovered by RFC 1191."
    ∷ option 25 "mtu-plateau-table" "Path MTU Plateau Table" text "Ancient History" "RFC 2132"
        "https://datatracker.ietf.org/doc/html/rfc2132#section-4.8"
        "Table of MTU sizes for Path MTU Discovery, sorted smallest to largest."
    ∷ with_choices (codes "0" ∷ codes "1" ∷ []) (
        option 27 "all-subnets-local" "All Subnets Local" select "Ancient History" "RFC 2132"
          "https://datatracker.ietf.org/doc/html/rfc2132#section-5.2"
          "Whether all subnets use the same MTU as the local subnet.")
    ∷ with_choices (codes "0" ∷ codes "1" ∷ []) (
        option 29 "mask-discovery" "Mask Discovery" select "Ancient History" "RFC 2132"
          "https://datatracker.ietf.org/doc/html/rfc2132#section-5.4"
          "Whether to perform ICMP subnet mask discovery.")
    ∷ with_choices (codes "0" ∷ codes "1" ∷ []) (
        option 30 "mask-supplier" "Mask Supplier" select "Ancient History" "RFC 2132"
          "https://datatracker.ietf.org/doc/html/rfc2132#section-5.5"
          "Whether to respond to ICMP subnet mask requests.")
    ∷ with_choices (codes "0" ∷ codes "1" ∷ []) (
        option 39 "tcp-keepalive-garbage" "TCP Keepalive Garbage" select "Ancient History"
          "RFC 2132" "https://datatracker.ietf.org/doc/html/rfc2132#section-5.14"
          "Whether to send an octet of garbage in TCP keepalive messages for compatibility.")
    ∷ option 48 "x-window-font" "X Window Font Server" ip_list "Ancient History" "RFC 2132"
        "https://datatracker.ietf.org/doc/html/rfc2132#section-8.9"
        "X Window System font server addresses."
    ∷ option 49 "x-window-manager" "X Window Display Manager" ip_list "Ancient History" "RFC 2132"
        "https://datatracker.ietf.org/doc/html/rfc2132#section-8.10"
        "X Window System Display Manager addresses."
    ∷ option 62 "netware-ip-domain" "NetWare/IP Domain" text "Ancient History" "RFC 2242"
        "https://datatracker.ietf.org/doc/html/rfc2242" "NetWare/IP domain name."
    ∷ option 63 "netware-ip-option" "NetWare/IP Information" text "Ancient History" "RFC 2242"
        "https://datatracker.ietf.org/doc/html/rfc2242"
        "NetWare/IP sub-options for configuring the NetWare/IP client."
    ∷ option 64 "nisplus-domain" "NIS+ Domain" text "Ancient History" "RFC 2132"
        "https://datatracker.ietf.org/doc/html/rfc2132#section-8.11"
        "NIS+ domain name for the client."
    ∷ []

abbrev pub ancient_options_last : List DhcpOption
ancient_options_last =
    option 65 "nisplus-server" "NIS+ Servers" ip_list "Ancient History" "RFC 2132"
      "https://datatracker.ietf.org/doc/html/rfc2132#section-8.12"
      "NIS+ server addresses, in order of preference."
    ∷ option 68 "mobile-ip-home-agent" "Mobile IP Home Agent" ip_list "Ancient History" "RFC 2132"
        "https://datatracker.ietf.org/doc/html/rfc2132#section-8.13"
        "Mobile IP home agent addresses."
    ∷ option 69 "smtp-server" "SMTP Server" ip_list "Ancient History" "RFC 2132"
        "https://datatracker.ietf.org/doc/html/rfc2132#section-8.14" "SMTP mail server addresses."
    ∷ option 70 "pop3-server" "POP3 Server" ip_list "Ancient History" "RFC 2132"
        "https://datatracker.ietf.org/doc/html/rfc2132#section-8.15" "POP3 mail server addresses."
    ∷ option 71 "nntp-server" "NNTP Server" ip_list "Ancient History" "RFC 2132"
        "https://datatracker.ietf.org/doc/html/rfc2132#section-8.16"
        "Network News (NNTP/Usenet) server addresses."
    ∷ option 72 "www-server" "WWW Server" ip_list "Ancient History" "RFC 2132"
        "https://datatracker.ietf.org/doc/html/rfc2132#section-8.17"
        "Default World Wide Web server addresses."
    ∷ option 73 "finger-server" "Finger Server" ip_list "Ancient History" "RFC 2132"
        "https://datatracker.ietf.org/doc/html/rfc2132#section-8.18"
        "Finger protocol server addresses."
    ∷ option 74 "irc-server" "IRC Server" ip_list "Ancient History" "RFC 2132"
        "https://datatracker.ietf.org/doc/html/rfc2132#section-8.19"
        "Internet Relay Chat (IRC) server addresses."
    ∷ option 75 "streettalk-server" "StreetTalk Server" ip_list "Ancient History" "RFC 2132"
        "https://datatracker.ietf.org/doc/html/rfc2132#section-8.20"
        "Banyan StreetTalk server addresses."
    ∷ option 76 "streettalk-da" "StreetTalk DA Server" ip_list "Ancient History" "RFC 2132"
        "https://datatracker.ietf.org/doc/html/rfc2132#section-8.21"
        "Banyan StreetTalk Directory Assistance server addresses."
    ∷ option 77 "user-class" "User Class" text "Ancient History" "RFC 3004"
        "https://datatracker.ietf.org/doc/html/rfc3004"
        "User class identifier for selecting configuration parameters."
    ∷ []
