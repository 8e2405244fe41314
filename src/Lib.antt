-- ===== src/Lib.antt =====
-- Kothawoc, a news server on SQLite whose nodes are onion services: the errors, the keys, the
-- handshake, the messages, the databases, the peers, the news backend and the client.
--
-- The program. `internal/databases` keeps what a node has: a goroutine, `dbServer`, takes commands from
-- a channel one at a time, runs them on four SQLite databases (articles, config, groups, peers), on one
-- database for each group, and on a directory with a file for each article. The methods of `BackendDbs`
-- send a command and read its answer; the news backend, the peers and the client call those.
-- `pkg/keytool` holds the keys that sign messages and name nodes. Nodes that connect shake hands with
-- those keys (`internal/torutils`), and `client.go` says whose key is let in. A session's calls come to
-- `internal/nntpbackend`, which reads groups and articles and posts messages: `pkg/messages` signs and
-- verifies them and acts on the control messages among them. `internal/peering` sends each peer the
-- articles that it may read. `pkg/serror` wraps errors.
--
-- The files.
--   Serror      pkg/serror/serror.go: `New`, `Wrap`, `Errorf`, `Unwrap`, `Line`, and `errors.Is`.
--   Keytool     pkg/keytool/keytool.go: `EasyEdKey` and its methods, over the record `Crypto` of the
--               library functions they call; `IsLawful` has the documented laws of those.
--               Keytool/Key has the setters and parsers, Keytool/Methods the methods that need a key's
--               kind, Keytool/Certificate `CreateCert`, Keytool/Identity the theorems on identifiers.
--   Torutils    internal/torutils/torutils.go: `ServerHandshake` and `ClientHandshake` as functions from
--               the bytes that the other side sends to the bytes that are written and a verdict;
--               Torutils/Reading has `readConnUntilLF`, Torutils/Hex the codec. Authentic says whom the
--               two accept, Honest runs one against the other.
--   Messages    pkg/messages: `CheckControl` of control.go, over the callbacks that it is given.
--               Messages/Tool has `MessageTool` of messages.go, over the record `Library` of
--               Messages/Mime, Messages/Body its `ParseBody`, and Messages/Create the Create functions of
--               control.go. Signed, Signing and Forging say what is signed and what is verified, Parsing
--               how a body is taken apart, Control which control messages are acted upon, Described what
--               is read out of one, and Keeps carries a property of the state through `CheckControl`.
--               Delivery follows a message from `Sign` over the wire to `Verify`, and Befriending one from
--               `CreatePeerGroup` to the call of `AddPeer`.
--   Databases   internal/databases/databases.go. Databases/State has the tables and the open handles as
--               one record, `Store`; Databases/Monad the methods as functions from a store to a result
--               and a store. Perms, Groups, Articles, Cancel, Config, Peers and Open (the start) have
--               the methods of `backendDbs`, named after the source's in snake case; Server has
--               `dbServer`, and Client the methods of `BackendDbs`. Keeps has the rules that carry a
--               property of the store through a method; Stable applies them to every command, for any
--               property that its tables' writes keep, and Invariant to the well-formedness of the store.
--               Peers/Listing says who stands in the table of peers.
--   Peering     internal/peering/peering.go: `SendMessages`, which feeds one peer; Peering/Manager has
--               `Peers` and the commands of its worker over the record `Node`, and Peering/Worker the loop of
--               `Peer.Worker`: its switch, `Connect` and `SendMessages`. Feed says what one round
--               does, Safety what is and is not sent, Queue and Draining what all rounds together send,
--               Membership who is a peer, and Worker/Delivering what the loop of the worker sends.
--   Backend     internal/nntpbackend/nntpbackend.go: Backend/Reading has the methods that read, and
--               Backend/Posting has `Post` in its stages, from `post` through `check`, `route`, `accept`
--               and `store`. Backend/Talk has the methods of `EmptyNntpBackend` (emptybackend.go), too,
--               and the session that goes from one backend to the other. Access, Refusal, Indexed and
--               Invariant have the theorems; Backend/Keeps carries a property of the node through
--               `Post`.
--   Client      client.go: the key of a node, the callback of the handshake, the sessions, and what the
--               user sends; Client/Sessions has the theorems.
--   System      A node as a whole. `Step` is one step of it: a session posts, a session or the user has a
--               command of the databases carried out, a peer is added or removed, all are connected, a
--               worker dials or feeds, the process ends and starts again; `Reached` is what steps lead to
--               from an empty disk. Keeps carries a property through every step; Valid, Files and Peers
--               have the invariants. The command
--               that stores an article is no step of its own: it is a part of `Post`.
--   Table, Dict SQLite tables with AUTOINCREMENT numbers and a UNIQUE key; maps, and two-column tables.
--               Table/Queue and Table/Pending are about the next number and all that follow,
--               Dict/Entries about what holds of all entries.
--   Text        what the program uses of `strings` and `strconv`; Header of `net/textproto`.
--   Tests       runs on small inputs, and instances of the theorems.
--
-- How the state is modelled. A string is a list of bytes, of type `Bytes`. An error keeps its chain of
-- call sites, each with the source's line. A nil pointer or error is `none`, and a panic is a result
-- of its own, after which what was written stays written. Each call of SQLite or of the system takes
-- one entry from the list `faults` of the store and fails with an error where that entry is true,
-- before it does anything; but a write of an article's file that fails leaves what the list `torn`
-- says, the file as it was or a beginning of the text. The statements of a script of `openCreateDB`
-- are one call. A theorem that says "no call fails" has the empty list, and the invariant holds for
-- every list. A group's handle is the number in its file's name; the file's tables are a record in
-- `disk`. A time is any number. A goroutine that sends the rows of a query runs to its end before the
-- next command is served. The calls of one `Post` or one round of a feed follow each other with
-- nothing in between. A command for the worker of a peer goes into the list `queued` of its node;
-- `Sendme`, which waits for that worker, has the worker's step in it. The peers whose workers run
-- stand in `workers`, and the goroutine that a worker starts for a command runs to its end before the
-- round goes on. A method that changes a message returns the new one.
--
-- Parameters. `read_message` is `mail.ReadMessage`: a header and a body, or `none` for an error.
-- `remove_peer` is the callback `RemovePeer`, as far as it changes the databases; that of a node,
-- which changes the map of its peers, is a step of its own in System. A vcard comes as the fields
-- `X-KW-PERMS` with their parameters; in Messages a card is of any type, with its decoder. `Crypto`
-- stands for crypto/ed25519, crypto/x509, golang.org/x/crypto/ssh and bine/torutil. `Library` holds
-- what is used of mime, mime/multipart, fmt and encoding/base32, and the order in which a header's map
-- is visited; its law is that base32 decodes what it encodes. `Certifier` holds what `CreateCert` uses
-- of time, net, crypto/rand and crypto/x509, over any types of times and addresses. The random
-- boundaries of the multipart writers, the date, the result of `GenID`, the orders in which other maps
-- are visited, the answer of `Client.Post` of go-nntp and what the other side of a connection sends
-- are arguments.
--
-- Bounds. Numbers of rows are natural numbers; where a number passes through `strconv.ParseInt` the
-- theorem asks that it is below 2^63. `format_int` writes a number with its own size as fuel, one digit
-- for each step, which is enough in every base from 2 up. The rounds of a feed are counted by a number, and
-- as many rounds as there are articles left are enough. Every other loop follows a list.
--
-- Not modelled. `NewTorCon`, `Listen` and `Dial` of internal/torutils, and the opening of connections and
-- listeners in client.go and internal/peering; `NewNNTPBackend`, which only fills records;
-- `ExampleMessageTemplate` and `Construct` of pkg/messages, which are constants; the timer of a peer's
-- worker, and the message WorkerExited, which follows the command Exit that nothing sends; cmd, which starts
-- a client. Logging is left out everywhere.
pub mod Prelude
pub mod Serror
pub mod Dict
pub mod Table
pub mod Text
pub mod Header
pub mod Keytool
pub mod Torutils
pub mod Messages
pub mod Databases
pub mod Peering
pub mod Backend
pub mod Client
pub mod System
pub mod Tests
