-- ===== src/Lib.antt =====
-- ContractDB: a DNS server over a table of items, in which an owner name below the zone stands for a
-- partition key, and the TXT record of the name for the item.
--
-- The parts of the program and their files. Paths are from the repository's root.
--   Names      server.go (parseKey, itemName): partition keys as owner names.
--   Txt        server.go (chunkBytes), update.go (decodeTXTStrings): character strings of TXT records.
--   Item       store.go (Item, Entry), and encoding/json as a record of parameters.
--   Store      store.go: the interfaces Store, Reader and Writer as records of operations on a state
--              `S`. Store/Sample is sampleStore of sample.go, a map as an association list.
--   Journal    journal.go (MemChangeLog): the deltas of the zone by serial, a uint32 that wraps.
--   Handler    server.go: Handler, Config, Metrics, the records that the handler makes, the signature
--              policy (tsigValid, authOK, setupReplyTsig), commitWrite.
--   Query      server.go (buildResponse, gsiLookup): the answer to a query.
--   Update     update.go: processUpdate and handleUpdate; Update/Checks is evalPrerequisites. An early
--              return is an rcode in the type `Step`. Update/Concurrent takes processUpdate from the
--              first read on apart into the steps of goroutines that share the handler; a run is
--              given by its schedule.
--   Transfer   transfer.go: handleAXFR, handleIXFR, streamZone, batchRRs. A stream is the list of the
--              messages written, and whether the last write succeeded.
--   Serve      server.go: ServeDNS, which calls Query, Update and Transfer, and acceptFunc.
--              Serve/Lifecycle is Serve, and Run with its options. Serve/Chronicle says what a
--              history tells of the writes of a store.
--   Dns        the data of github.com/miekg/dns, with its functions as parameters (`DnsLib`) and what
--              the theorems need of their documented behaviour (`IsDnsLib`, `Truncates`).
--   Store/Attribute, Store/Dynamo   store.go: flatten, unflatten and dynamoStore over a client, which
--              is a parameter; Store/Demo is the data of sample.go.
--   Auth       auth.go: the TSIG keys, from their specification to the HMAC, which is a parameter;
--              buildTSIG of main.go.
--   Doh        doh.go: the handler of HTTP requests, from the request to the reply. Doh/Certificate is
--              EnsureTLSCert and ServeDoH over explicit files, with the cryptography as a parameter.
--   Dnssec     dnssec.go: Sign and signSection. What the library's Sign makes of an RRset, with the
--              private key, is a parameter. Dnssec/Keys is NewOnlineSigner, over explicit files.
--   Notify     notify.go: SendNotify and NotifyAll over a parameter that exchanges messages.
--   Start      main.go: the choice of each setting among flags, environment and file
--              (Start, Start/Configure), the choice of the command (Start/Commands), the handler
--              that cmdServe makes of the settings (Start/Server) with its store (Start/Stores: the
--              calls through the interfaces of store.go, over one of the two stores), its
--              pidfile with the commands status and stop (Start/Pidfile), and cmdHealthcheck
--              (Start/Health).
--   Base, Text, Base32, Base64, Assoc   shared helpers: bytes, lists, the functions of package
--              strings that the source calls, base32 and base64 with their round trips, association lists.
--   Tests      concrete inputs.
--
-- How they interact: a message is one step of the handler, `serve_dns env ops h w req`, which returns
-- the handler with its store, journal, serial and counters, the messages written, and the addresses
-- that are notified. `env` holds the DNS library and the JSON codec, `ops` the operations of the
-- store, `w` the connection and the time when a reply is signed. Over HTTPS, `serve_doh` takes the same
-- handler, and that time. The handler that a server
-- starts with is that of `cmd_serve w fl fc`, for the world `w`, which holds the environment, the files
-- and the clock, the flags `fl` and the file `fc`; it ends with an `Exit` where the program does. A
-- name is a list of bytes, lower case where the source lowers it.
--
-- Bounds and fuel. `chunk_bytes` takes a round per byte, and each round removes one at least. The
-- pruning loop of the journal takes 2^32 rounds, in which its counter passes every serial
-- (Journal/Pruning); a journal in step with its history prunes one entry at most. The loop of
-- Deltas takes a round per serial that is left. Serials are taken modulo 2^32; most results on the
-- journal hold until the serial wraps. Decimal numbers are written with fuel for one digit more than
-- they have.
--
-- Not modelled: the sockets, of which Serve, ServeDoH and cmdStatus see only how they end; the parsing
-- of flags and of the file, of which the model takes the result; a file that is written in part; logs;
-- the random bits that an ECDSA signature draws, and the octets of signatures;
-- the interleaving of messages but for the writes of updates. Text that the program lowers or trims
-- is taken to be ASCII.
pub mod Base
pub mod Text
pub mod Base32
pub mod Base64
pub mod Assoc
pub mod Item
pub mod Dns
pub mod Journal
pub mod Store
pub mod Handler
pub mod Query
pub mod Update
pub mod Transfer
pub mod Serve
pub mod Notify
pub mod Start
pub mod Auth
pub mod Doh
pub mod Dnssec
pub mod Names
pub mod Txt
mod Tests
