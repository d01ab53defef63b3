-- ===== src/Config/Keys.antt =====
-- internal/config/parser.go: the table `canonical` of known keys.
use Prim.Native.String.{String}
use gsnet.Common.{List, [], ◌∷◌, Text, codes, Option, none, some}
use gsnet.Dict.{Dict, get}
use gsnet.Strings.Fold.{to_lower}

abbrev pub names : List (String × String)
names =
    ("address", "Address")
    ∷ ("addressfamily", "AddressFamily")
    ∷ ("autoconnect", "AutoConnect")
    ∷ ("bindtoaddress", "BindToAddress")
    ∷ ("bindtointerface", "BindToInterface")
    ∷ ("broadcast", "Broadcast")
    ∷ ("broadcastsubnet", "BroadcastSubnet")
    ∷ ("cipher", "Cipher")
    ∷ ("clampmss", "ClampMSS")
    ∷ ("compression", "Compression")
    ∷ ("connectto", "ConnectTo")
    ∷ ("decrementttl", "DecrementTTL")
    ∷ ("device", "Device")
    ∷ ("devicestandby", "DeviceStandby")
    ∷ ("devicetype", "DeviceType")
    ∷ ("digest", "Digest")
    ∷ ("directonly", "DirectOnly")
    ∷ ("ed25519publickey", "Ed25519PublicKey")
    ∷ ("ed25519privatekey", "Ed25519PrivateKey")
    ∷ ("forwarding", "Forwarding")
    ∷ ("fwmark", "FWMark")
    ∷ ("hostnames", "Hostnames")
    ∷ ("ifconfig", "Ifconfig")
    ∷ ("iffonequeue", "IffOneQueue")
    ∷ ("indirectdata", "IndirectData")
    ∷ ("interface", "Interface")
    ∷ ("invitationexpire", "InvitationExpire")
    ∷ ("keyexpire", "KeyExpire")
    ∷ ("listenaddress", "ListenAddress")
    ∷ ("localdiscovery", "LocalDiscovery")
    ∷ ("loglevel", "LogLevel")
    ∷ ("maclength", "MACLength")
    ∷ ("macexpire", "MACExpire")
    ∷ ("maxconnectionburst", "MaxConnectionBurst")
    ∷ ("maxtimeout", "MaxTimeout")
    ∷ ("mode", "Mode")
    ∷ ("mtuinfointerval", "MTUInfoInterval")
    ∷ ("name", "Name")
    ∷ ("netname", "Netname")
    ∷ ("pmtu", "PMTU")
    ∷ ("pmtudiscovery", "PMTUDiscovery")
    ∷ ("pinginterval", "PingInterval")
    ∷ ("pingtimeout", "PingTimeout")
    ∷ ("port", "Port")
    ∷ ("priorityinheritance", "PriorityInheritance")
    ∷ ("processpriority", "ProcessPriority")
    ∷ ("proxy", "Proxy")
    ∷ ("replaywindow", "ReplayWindow")
    ∷ ("route", "Route")
    ∷ ("sandbox", "Sandbox")
    ∷ ("scriptsextension", "ScriptsExtension")
    ∷ ("scriptsinterpreter", "ScriptsInterpreter")
    ∷ ("strictsubnets", "StrictSubnets")
    ∷ ("subnet", "Subnet")
    ∷ ("tcponly", "TCPOnly")
    ∷ ("tunnelserver", "TunnelServer")
    ∷ ("udpdiscovery", "UDPDiscovery")
    ∷ ("udpdiscoveryinterval", "UDPDiscoveryInterval")
    ∷ ("udpdiscoverykeepaliveinterval", "UDPDiscoveryKeepaliveInterval")
    ∷ ("udpdiscoverytimeout", "UDPDiscoveryTimeout")
    ∷ ("udpinfointerval", "UDPInfoInterval")
    ∷ ("udprcvbuf", "UDPRcvBuf")
    ∷ ("udpsndbuf", "UDPSndBuf")
    ∷ ("upnp", "UPnP")
    ∷ ("upnpdiscoverwait", "UPnPDiscoverWait")
    ∷ ("upnprefreshperiod", "UPnPRefreshPeriod")
    ∷ ("weight", "Weight")
    ∷ ("wgpublickey", "WGPublicKey")
    ∷ ("wgprivatekey", "WGPrivateKey")
    ∷ ("wgendpoint", "WGEndpoint")
    ∷ []

abbrev table_of : List (String × String) → Dict Text
table_of [] = []
table_of ((k, c) ∷ rest) = (codes k, codes c) ∷ table_of rest

unfoldable pub canonical : Dict Text
canonical = table_of names

unfoldable pub or_same : Text → Option Text → Text
or_same k none = k
or_same k (some c) = c

-- `canonicalKey`
unfoldable pub canonical_key : Text → Text
unfolding or_same canonical
canonical_key k = or_same k (get canonical (to_lower k))
