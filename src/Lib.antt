-- ===== src/Lib.antt =====
-- Verification library of dbgp-tools, written in Go: the DBGp proxy (dbgpProxy), the command line
-- client (dbgpClient) and the tool that sends commands to running scripts (xdebugctl).
--
-- An IDE sends the proxy a line, proxyinit or proxystop (cloudinit or cloudstop for Xdebug Cloud); the
-- proxy parses it, changes its list of connections, and answers with an XML message in a frame: the
-- length, a byte 0, the text, a byte 0. The client reads frames, with a deadline if it wants to, and
-- writes lines that it numbers itself.
--
-- Base: shared names, texts as lists of bytes, Boolean tests, Go's maps, and the integers over the
--   native natural numbers.
-- Go: what the program uses of Go's standard library, written out: strings (Split, Join, TrimSpace,
--   TrimRight, HasPrefix), strconv (Itoa, Atoi, with the range of a 64-bit int), encoding/xml (the
--   elements that the program writes, with their escapes), bufio (ReadBytes), hash/crc32 and net. The
--   network is an argument: the events that reading meets (a chunk of bytes, the deadline, a failure)
--   and the list of the writes that fail.
-- Connections: lib/connections/connections.go. The list, with the objects of type Connection on a
--   heap, since the program holds pointers to them and claims change them in place. The methods hold
--   the list's mutex while they work on it, so that is one step. RemoveByKey of a connection that is
--   claimed sends on a channel afterwards; what it sends is a part of its result, and callers wait
--   there for ever, since nothing receives. Nothing in the repository claims a connection, and Unclaimed
--   says so of a list. Connections/Calls runs sequences of the methods, WellFormed has the invariant, and
--   Refinement the map from keys to connections that the list stands for.
-- Dbgpxml: lib/dbgpxml, one module for each struct. github.com/logrusorgru/aurora (colours) and
--   encoding/base64 are parameters of the functions that print. Response/Attributes is UnmarshalXML of
--   Typemap, Response/Property/Layout says how a property is laid out, and Response/Format/Listing how
--   a source is.
-- Command: lib/command, one module for each command: its parser, Handle, and for the cloud commands
--   ActUponConnection and Close. Command/Arguments is the loop over the arguments that the four
--   parsers repeat. The errors of parsers are values; their wording is not modelled.
-- Protocol: lib/protocol. Server is dbgp-server.go: ReadCommand, ReadCloudCommand, the dispatch on the
--   first word, SendResponse. Client is dbgp-client.go: readResponse, processLine, SendCommand.
--   Client/Patience has a caller that goes on after each timeout; its fuel counts the events that may
--   come before the packet, and one attempt for each is enough. Formatting is FormatXML and
--   RunCommand; what encoding/xml decodes is a parameter, the record Decoder. Formatting/Listing goes
--   from a command to the lines it leads to. RunAndQuit is the function of that name.
-- Proxy: ClientHandler is lib/proxy/server.go, the handler of a connection from an IDE. Forwarder is
--   setupForwarder of lib/proxy/client.go, and ConnectToIde its first call; its fuel bounds the
--   packets and the timeouts of a session, and more of it than the bytes and events that there are to
--   read is always enough. Forwarder/Channel has its two goroutines and their channel as a step
--   relation. ServerHandler is Handle of the same file, one round of its loop, and ServerHandler/Loop
--   the loop, over a list of rounds; the record World holds what the environment does in one: whether
--   the IDE can be reached, whether it has gone when a read times out, and what other connections do
--   to the list. A round can end in RemoveByKey waiting, or in a session whose fuel did not suffice;
--   ServerHandler/Sound has when neither happens. After a session that has closed the connection from
--   Xdebug, reading and writing there fail. ClientHandler/Called has what a command of an IDE does to the
--   list as calls of its methods.
-- Connecting: lib/connections/utils.go; what a dialled connection is, or that there is none, is an
--   argument.
-- Listener: lib/server/server.go. The loop over what Accept returns is a function; Listener/Shutdown
--   has the goroutines of dbgpProxy, the wait group and the flag `stop` as a step relation in which
--   any goroutine may move next; a call of Handle is one move of it, which may or may not come.
-- ClientTool: dbgpClient. Register has the lines of proxy.go, Proxy the commands that run once and the
--   flags that ask for them, with lib/protocol/cloud.go, Registration a registration from end to end,
--   with the sessions it leads to in Registration/Forwarding, and Unregistration its undoing. Session
--   is handleConnection of main.go, with what the user types and when interrupts come as arguments;
--   its fuel bounds the rounds, and more of it than there is to read is enough. Clients has the client
--   that waits for connections and the one for the cloud, whose fuel bounds the sessions; Main has the
--   flags, main and the variants that are built without the cloud or the proxy, and Completer the data of readline.go.
-- ProxyProgram: dbgpProxy/main.go: what is started, and what is stopped.
-- Xdebugctl: xdebugctl/main.go, with main_linux.go in Sockets and main_windows.go in Windows; the fuel
--   of the walk through a buffer is one more than its bytes, since each entry lies behind the one
--   before it.
-- Logger: lib/logger/console.go. The other modules leave their log lines out.
-- The modules whose names end in Tests run the definitions and the theorems at concrete inputs.
--
-- Not modelled: where the log is written, signals, TLS, the parsing of flags (package getopt) and its
-- usage texts, and the parsing of XML; the random UUID of a
-- connection, which is an argument; the bytes that are copied from the IDE to Xdebug; the matching of
-- regular expressions; package readline; and the system calls of xdebugctl/main_windows.go, whose
-- results are arguments.
pub mod Base
pub mod Go
pub mod Connections
pub mod Dbgpxml
pub mod Command
pub mod Protocol
pub mod Proxy
pub mod ClientTool
pub mod Connecting
pub mod Listener
pub mod Logger
pub mod ProxyProgram
pub mod Xdebugctl
