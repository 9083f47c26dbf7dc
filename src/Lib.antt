-- ===== src/Lib.antt =====
-- A verification library for Bit_Torrent_Project: a BitTorrent client with its wire protocol, a
-- tracker that speaks gRPC, a Kademlia DHT that the clients use beside it, and the client's
-- programs around them.
--
-- The parts. A client finds peers by asking a tracker (Announce) and the DHT (get_peers), and
-- exchanges pieces with them over the wire protocol. A publisher registers a torrent at a tracker
-- (Publish), which passes it on to its backup trackers (RePublish), and announces itself in the
-- DHT. A DHT node answers queries from its routing table and its store; every message that it
-- takes puts the sender into the table.
--
--   Common    the results of Go calls (`Outcome`: a value, an error, or a panic), Go maps as
--             association lists (`Dict`, whose order is the order of `range`), slices as lists,
--             and facts on bytes that are checked by a table.
--   Wire      Client/client/communication. Words: io.ReadFull, encoding/binary, copy. Message:
--             `Message.Serialize`, `Deserialize`. Payloads: `BuildHaveMessage`,
--             `BuildRequestMessage`, `ParseHave`, `ParsePiece`, `ParseRequest`. Bitfield:
--             `HasPiece`, `SetPiece`. Handshake: handshake.go. The proofs are in Framing,
--             Exchange, Bits and Greeting. A reader is the list of the bytes that are still to
--             come; the functions give back the rest.
--   Tracker   tracker/tracker/tacker.go. State: the types and the ways a call can end (`Call`: it
--             waits for the mutex for ever, crashes, or returns a state, a response and an error).
--             Publish: `Publish`, `publishTorrent`, `RePublish`, `RePublishRequestManager`.
--             Queries and Announce: `announceQueryCheck`, `torrentStats`, `getPeer`,
--             `getRandomPeers`, `Announce`. Scrape: `Scrape`, `ParseScraperRequest`. Backup:
--             `AddBkTracker`, `KnowMe`. Process: tracker/server/server.go, the process around the
--             server with its two files and the trackers that it introduces itself to. Client:
--             Client/client/tracker_communication. The proofs are in Registry, Sampling, Counters,
--             Mutex, Soundness, Invariant, Restart (over restarts), Greeted (two trackers) and
--             Meeting (two clients). Network: the RePublish requests between the trackers of a
--             network, with the proofs in Spread.
--   Dht       Client/dht/Kademlia. Node: node.go. Table: routingTable.go and kbucket.go. Store:
--             kStore.go. Messages: krpcMsg.go. Handler: handler.go, with what it calls of dht.go.
--             Server: `HandleMessage` of krpc.go. The proofs are in Distance (the bucket of an
--             id), Buckets and Removal (one bucket), Tables and Placement (the table), Nearest,
--             Gathering and Gathered, Compact, Ordered (sorted lists of values), Storage,
--             Retrieval, Expiry, Answering, Finding and Crash. The node as a client is in Sending
--             (`SendMessage` and one round's queries), Lookup (`LookUP`, `GetPeersToDownload`),
--             Refresh (`getRandomIDFromBucket`, `RefreshBucket`) and Process (`NewDHT`, `Ping`,
--             `JoinNetwork`, `AnnouncePeer`), with the proofs in Reading (what a lookup reads of
--             an answer), Rounds, Search and Aimed.
--   Peer      Client/torrent_peer and Client/client/torrent_file. Pieces: `pieceLength`,
--             `splitPiecesHash`, the hashes of `BuildTorrentFile`. Selection: `RarestFirst`.
--             Upload: `HandleMessage`, `HandleRequest`, `HandleHave` of uploader_client.go.
--             Requests and Download: `DownloadPiece`. Worker: `StartPeerDownload`, `check`,
--             `SelectPiece`. Collector: the collecting of `DownloadFile`. TorrentFile: the
--             functions of torrent_files.go. Connect: `StartConnectionWithPeer` and the messages
--             of torrent_peer.go, downloader_client.go. Serve: `HandleTCPConnection`, `Handshake`,
--             `SendBitfield`. Choking: the two functions `Choke`. The proofs are in Transfer (a
--             request is answered by its block), Blocks, Assembly, Hashes, Rarest, Ledger (any
--             peer), Pacing, Dialogue and Conversation (a peer that answers the requests that are
--             sent), Flags, Honest, Tasks, Complete and Whole (a peer that has the file),
--             Uploading (a piece that an uploader of this program sends), Published (from the file
--             to its torrent and back), Greet and Optimistic. Accept: `ServerTCP`, one connection
--             after the other. Announcing: what a download announces to the tracker, with the
--             proofs in Reported.
--   Program   Client/main.go, Client/utils/utils.go and Client/fyneUI.go. Info: the file
--             info.json, `SaveToInfo`, `Download`, `Publish`. Window: the variables behind the
--             graphical interface and what its buttons do with them. The proofs are in Saved,
--             Served (what a client serves after a download) and Session (whatever the user does).
--
-- How the code is read. A byte is a number below 256, where a statement needs it by the hypothesis
-- `IsByte`; uint32 arithmetic wraps as written (`% 2 ^ 32`). An id, an info hash, a key and a value
-- are lists of bytes; a name such as "ping" or "started" is a string. Time is an argument. What
-- Go's map order leaves open is an argument or the order of an association list, so that theorems
-- hold for every order. A call that holds a mutex throughout is one step. Logging is left out.
--
-- Bounds and fuel. `LookUP` runs on fuel, one for each round; `Dht.Search.look_up-ends` gives a
-- number of rounds that is enough whatever is answered. The search for another peer in `Choke` runs
-- on the random numbers that it draws, and gives `none` where they end. No other loop runs on fuel
-- that could run out: the loops over slices recurse on the list, the loop of `getNearestNodes` runs
-- its 160 rounds, that of `RemoveNode` the length of the slice that it ranges over, the search for
-- a byte's first bit its 8 rounds, and `DownloadPiece` recurses on the messages that its peer
-- sends, where an end of them is an error. What a peer answers in a conversation has one step for
-- each byte of the piece, and each answer brings one byte at least.
--
-- Parameters. Package net (the text of addresses, their resolution) is a record `Net` for the
-- tracker and functions such as `resolve`, `peer_text` and `address` elsewhere; fmt.Sprintf of a
-- host and a port is `host_port`, strconv.Atoi is `atoi`, and the sending of a query is `transmit`,
-- all without any hypothesis. What happens while a lookup waits is a list of events for each round.
-- What the bencode library reads of a packet is the record `Packet`. What crypto/rand gives for a
-- transaction id is an argument. The client's file system is a function from paths to contents, and
-- SHA-1 a function whose results are assumed to have twenty bytes. What encoding/json reads back
-- from its own text is an argument: `text` and `name` for the tracker, `json` for info.json.
-- sort.Sort is insertion sort, and sort.SearchStrings is the first index that is not less, which on
-- sorted lists is what its binary search finds.
--
-- Not modelled. Sockets, TLS, gRPC, the text of JSON and files, which the models get the contents
-- of; a read that fills only a part of its buffer; the widgets of the graphical interface,
-- Client/dht/main.go, and generated code (trackerpb). Of a download one worker is followed: the
-- slice of tasks that the workers share and the tickers are left out.
mod Common
pub mod Wire
pub mod Tracker
pub mod Dht
pub mod Peer
pub mod Program
