-- ===== src/Lib.antt =====
-- httptap runs a program in a network namespace of its own, reads the packets that it sends from a
-- TUN device, and answers them itself: it terminates the TCP connections, forwards what they carry
-- to the world, and records the HTTP calls that it sees.
--
-- The parts, and the files of this library that model them:
--
-- - tcp.go, the home-grown TCP stack. Tcp has the states and tcpStream with its net.Conn methods
--   (accept, reject, read, write, close), Tcp.Stack has tcpStack and handlePacket, cut into the
--   stages of the source (syn_stage, fin_stage, ack_stage, payload_stage). Tcp.Connections is its
--   specification, a table indexed by end points. Tcp.Life is the relation of one step: a packet
--   arrives, a handler calls a method of a stream, a datagram is queued, the device takes a
--   packet.
-- - udp.go, the UDP stack and its responder: Udp.
-- - mux.go, which finds the handler of a new connection or datagram by patterns: Mux.
-- - httptap.go: AddrPort and the key of a connection are in Addr, the handlers that Main
--   registers, its dialer and the redirection of the special address in App.
-- - the gvisor side, which serves the same handlers by a stack of its own: tcpRequest of tcp.go,
--   the forwarders of httptap.go and tcpListener of mux.go are in Gvisor.
-- - readFromDevice of httptap.go, which hands the packets of the device to the two stacks: Device;
--   copyToDevice, which writes what is queued for the subprocess: Device.Copy;
--   and the dump of raw packets: Device.Dump.
-- - dns.go, the answers to DNS queries: Dns, with the names of the record types in Dns.Codes.
-- - http.go: the recorded calls and their listeners are in Http, the bodies that are read through
--   a tee in Http.Bodies, Content-Encoding in Http.Content, the proxying of a request in
--   Http.Proxy. Two readers of the recorded calls are in httptap.go: a client of the web interface,
--   in Http.Web with the event stream that it gets (Http.Web.Events), and the terminal, in
--   Http.Terminal.
-- - the rest of Main of httptap.go, the calls that set up namespaces, devices, certificates and
--   the subprocess, and the environment that it gets: Launch. Their plan is in Launch.Plan and
--   Launch.Deferred, their orders in Launch.Guards, the second process in Launch.Reexec, the exit
--   status in Launch.Exit, the HAR file in Har.Dump.
-- - pkg/overlay and pkg/overlayroot: Overlay; pkg/bindfiles: Bindfiles; pkg/certfile and pkg/opensslpaths:
--   Certs.
-- - proxy.go, the copying of all other connections: Forward, with the stream of tcp.go as its input
--   in Forward.Arrived.
-- - pkg/harlog, the HAR log: Har.Types, Har.Timing, Har.Update, Har.Transport and
--   Har.Json, the JSON of times and durations.
-- - panic.go, which turns a panic into log lines: Panic.
-- - experiments, the small programs from which httptap has grown, in Experiments: goproxy (a proxy
--   with a log, Experiments.GoProxy), dns (Experiments.DnsProxy), gvisor-intercept, tun2socks and
--   gvisor-echo (Experiments.Namespaced, Intercept, Tun2socks and Echo), setuid, unprivelged,
--   pivotroot and bindmount (Experiments.Runners), tls (Experiments.Tls), and tls/get, udp, resolve,
--   pcap, fin and overlayfs (Experiments.Clients).
--
-- Device hands a packet to handle_packet of Tcp.Stack or of Udp; these ask Mux for the handler,
-- which App has registered; a handler reads and writes the connection by the methods of Tcp, and
-- replies go to the device by a bounded channel; App.Answered follows a DNS query through all of
-- them. A send that would block is dropped, as the source
-- has it. Shared has what the parts have in common: Boolean tests, lists measured by native
-- numbers, errors, channels (Shared.Channels) and decimal numerals (Shared.Decimal). Packet has
-- the headers and their serialisation. Examples has the theorems at concrete inputs.
--
-- Stateful code takes its state and returns it. A Go string is the list of its bytes, and a map an
-- association list. uint32 arithmetic is written out modulo 2^32. A mutex is a flag: `none` is a
-- lock that never comes. A goroutine that is started is recorded, and what it does later is a step
-- of its own; that the methods of a stream are atomic is an assumption. notifyHTTP, which may wait
-- for a listener, is a step that records the call and a step for each listener, with httpMu held. Of the loops, `digits` (of
-- a number n) has the fuel n + 1, and `read_all` and `reads_until_wait` have that of the queued
-- packets plus one; the
-- processes of Launch.Reexec have the fuel of two; the other functions are by recursion on a list.
--
-- The set-up is a sequence of calls of the operating system: System has its monad, whose state is
-- the trace of the calls with their answers, System.Files the calls of the three mount packages,
-- System.Follows and System.Guarded what is said of a trace. What answers a call is a parameter,
-- so that any call can fail at any point.
--
-- Code that is not part of the repository is a parameter: gopacket (Gopacket), miekg/dns and the
-- resolver (DnsLib), the connection, the round tripper and the certificate authority (World),
-- compress/gzip (Gzip, with its law IsGzip), the parsers of MIME types and forms (Parsers),
-- path/filepath (Paths), and what the set-up learns from its surroundings (Launch.World).
--
-- Not modelled: the gvisor stack itself, with its limit of connections in flight; of Main the parsing of the options and the server
-- of the web interface, which are libraries'; the loading of libcrypto.so; context.go, which
-- declares a key;
-- log messages other than the terminal's; of the experiments those that only call one library and
-- print its answer.
pub mod Shared
pub mod Addr
pub mod Packet
pub mod Mux
pub mod App
pub mod Tcp
pub mod Udp
pub mod Dns
pub mod Http
pub mod Experiments
pub mod Forward
pub mod Har
pub mod Device
pub mod System
pub mod Overlay
pub mod Panic
pub mod Bindfiles
pub mod Gvisor
pub mod Certs
pub mod Launch
pub mod Examples
