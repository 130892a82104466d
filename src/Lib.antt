-- ===== src/Lib.antt =====
-- libsparkle, the library of a distributed virtual network in which nodes find each other over UDP,
-- exchange keys and carry data packets between application layers; the parts of the programs sparkgap and
-- sippy that have a logic of their own.
--
-- The parts and how they interact. A node (`SparkleNode`) has two endpoints, a role, keys and a queue of
-- packets that wait for keys. The router keeps the nodes that are known in the network, and the node of
-- this host among them. The link layer keeps a spool of every node it has ever heard of, makes packets of
-- its own and handles those that arrive: in clear to exchange versions, keys and pings, and under
-- session keys for all else. The session cipher is Blowfish. An application layer is called with the
-- data that arrives for it, and hands over the data to be sent.
--
-- Files and code, by paths from the repository's root:
--   Blowfish.antt, Blowfish/Tables.antt: libsparkle/crypto/blowfish.c (do_encrypt, decrypt, do_bf_setkey, the
--     tables); Feistel, Block, Schedule and Repeated below it prove its laws, Tests runs its known answer.
--   Blowfish/Key.antt: libsparkle/BlowfishKey.cpp (setBytes, encrypt, decrypt), with RoundTrip and
--     Session, which makes it a session cipher as Cipher.antt states it.
--   Cipher.antt: what libsparkle/LinkLayer.cpp relies on of BlowfishKey, as operations and laws.
--   Address.antt: libsparkle/SparkleAddress.cpp.
--   Wire.antt: the packets of libsparkle/headers/Sparkle/linklayer.h; Wire/RoundTrip.antt reads them back.
--   World.antt: the objects at run time: the nodes on a heap, the fields of Router and LinkLayer, and the events
--     (datagrams, signals, calls of application layers) in their order, with the monad of the
--     commands; World/Refs.antt has runs that end, and lists of pointers.
--   Node.antt: libsparkle/SparkleNode.cpp; Node/OwnAddress.antt is about addressFromKey.
--   Router.antt: libsparkle/Router.cpp; Invariant, Selection and Lookup below it.
--   Link.antt and below: libsparkle/LinkLayer.cpp. Send has wrapNode, sendPacket, sendEncryptedPacket and
--     cleanup; Keys the key exchange and LocalRewrite; Join the way into a network; Routes the
--     registration and the routes; Peers route requests, tunnels, roles, exits and data; Life
--     createNetwork, joinNetwork, exitNetwork and the timers; Dispatch handlePacket and its table.
--     A function has the name of its method, in lower case (handle_route for handleRoute).
--   Ethernet.antt: sparkgap/EthernetApplicationLayer.cpp, an application layer, with Receive and Arp below it;
--     Carried takes a packet from one host over the link layers to another.
--   DataStream.antt: what the code relies on of QDataStream, as operations and laws; Qt below it has the
--     documented format, which obeys them.
--   RsaKeyPair.antt: libsparkle/RSAKeyPair.cpp; Keys has the round trips of keys, Chunks the loops of
--     encrypt and decrypt.
--   ArgumentParser.antt: sparkgap/ArgumentParser.cpp; CommandLine parses what was written out, Totality
--     is about any command line.
--   Messaging/Control.antt: the control packets of sippy/Messaging.cpp; Messaging/Html.antt its filterHTML.
--   Messaging/Contacts.antt: sippy/Contact.cpp and sippy/ContactList.cpp.
--   Messaging/Chat.antt: the windows of sippy/ChatWindow.cpp, and chatFor and handleMessage of sippy/Roster.cpp;
--     Attribution is about the names in them.
--   Messaging/Authorizing.antt: requestAuthorization and offerAuthorization of sippy/Roster.cpp; Accepted
--     takes a request to the other user's list.
--   Messaging/AddressText.antt: SparkleAddress::pretty and the constructor of sippy/Contact.cpp that reads it; Digits
--     has hexadecimal digits as Qt documents them.
--   Messaging/Storage.antt: contacts and setContacts of sippy/ConfigurationStorage.cpp; Kept reads back
--     what was stored.
--   Messaging/Layer.antt and below: sippy/MessagingApplicationLayer.cpp, an application layer. Presence has
--     the states of peers, Queue the control packets and their bounces, Receive handleDataPacket and the
--     calls from outside.
--   Messaging/Delivery.antt and below: any number of messengers over a network, as a step relation, with
--     what holds in each state that they reach; Messaging/Carried.antt puts a messenger on a link layer.
--   Examples.antt and below: a small network, in which the theorems are applied, and the run by which one
--     host joins the network of another (Joining).
--   Prelude.antt and below: shared names, lists, bytes and bits.
--
-- State and failure. A command takes a world and is done with a value and a world, or ends in `fault` (a null
-- or dangling pointer was followed), `fatal` (Log::fatal, which exits) or `out_of_fuel`. A node pointer is
-- a number on the heap, a new node gets a number that was not used, and `delete` frees it, so that what
-- is done with a deleted node is a fault. Qt's signals and slots are events: nothing in the library
-- listens to its own signals but UdpPacketTransport's end of reception.
--
-- The messenger has its own state, and its operations return the new state and what they send and signal.
-- A call of LinkLayer::sendDataPacket is an output; a signal of the link layer that comes of it is a later
-- call of the messenger. In a network of messengers a datagram that was sent may arrive never, once, or
-- more than once, and in any order.
--
-- Numbers. Words are natural numbers: sums in Blowfish are taken modulo 2^32, the length field modulo 2^16,
-- joinPingsArrived modulo 2^32. Bytes between the fields of a structure, the bytes that
-- QByteArray::resize adds and fields that are not set are given by `memory`, of which nothing is assumed.
--
-- Fuel. sendEncryptedPacket calls itself through sendBacklinkRedirect, with a master as its target, for which
-- it does not do so again: a depth of 2 is enough. The flushing loop of handleSessionKeyExchange has the
-- length of the queue, and the loops of BlowfishKey the length of the data.
--
-- What is taken from elsewhere, as fields of `Environment`: RSAKeyPair (the key that setPublicKey reads), SHA-1,
-- qrand, the bytes of generated session keys, and whether the socket could be opened. QDataStream, QSettings,
-- hexadecimal digits, base64, and PolarSSL's big numbers and PKCS#1 operations are records of operations with their laws.
--
-- Not modelled: the log (apart from Log::fatal), UdpPacketTransport and SparkleRandom, which are input and
-- output; the copies of PolarSSL, lwIP and Qt's multimedia classes, which are other projects' code; of
-- sparkgap its TAP devices and main, which call the system and lwIP; of sippy its windows, but for
-- the messages that a chat window shows and requests for authorizations, and the settings that are
-- single values.
pub mod Prelude
pub mod DataStream
pub mod Blowfish
pub mod RsaKeyPair
pub mod Cipher
pub mod Address
pub mod Wire
pub mod World
pub mod Router
pub mod Node
pub mod Link
pub mod Ethernet
pub mod ArgumentParser
pub mod Messaging
pub mod Examples
