-- ===== src/Lib.antt =====
-- Verification library of the merged mining pool.
--
-- The pool serves work for a primary chain and any number of auxiliary chains. It fetches block
-- templates, builds the two halves of a coinbase transaction around the extranonces of a miner,
-- commits in it to the blocks of the auxiliary chains, hashes what a miner sends back, and tells a
-- share from a block of each chain; shares are buffered, blocks sent to the nodes, balances paid.
--
-- The parts, with the code that they model:
--   Common      shared types: Go's results (a value, an error or a panic), byte strings, int64, lists.
--   Hex         encoding/hex of Go's library as the program uses it, as a definition on byte lists.
--   Encoding    bitcoin/encoding.go and utils/byte.go.
--   Crypto      bitcoin/crypto.go and utils/hash.go; the hash functions are the fields of a record.
--   Template    bitcoin/template.go and bitcoin/auxBlock.go.
--   Format      the verbs of fmt that the program uses on numbers.
--   Coinbase    bitcoin/coinbase.go and bitcoin/transaction.go: both halves of the coinbase.
--   Merkle      bitcoin/merkle.go: the steps of a template and the root of a header. Merkle/Tree is
--               the tree of the protocol.
--   AuxMerkle   bitcoin/auxMerkelBranch.go, and the root and script of pool/work.go.
--   Chain       bitcoin/chain.go and the six chains; address patterns are recognizers.
--   Header      bitcoin/header.go.
--   Block       bitcoin/bitcoin.go, generator.go, submission.go and auxpow.go: a block's methods
--               return the block as they leave it, also on an error.
--   Target      bitcoin/target.go; the operations on floats are the fields of a record.
--   Share       pool/share.go.
--   Intake      recieveWorkFromClient of pool/work.go, with the submissions of pool/nodes.go.
--   Session     pool/session.go and pool/responses.go; Session/Requests the loop over the lines of a
--               connection and Session/Listening the loop that accepts them, of pool/network.go.
--   Fetch       fetchAllBlockTemplatesFromRPC of pool/server.go and the caching of work of pool/work.go.
--               Fetch/Gather is what the answers of the nodes make of the aux blocks.
--   Server      pool/buffer.go and pool/extraNonce.go.
--   Manager     rpc/manager.go: the failover between the nodes of a chain; whether a node answers is
--               a function of the time. Manager/Steps interleaves the single accesses of a search and
--               of the launched loops to the index, which the code shares without a lock.
--   Rows        the rows of persistence/share.go, found.go, balance.go and payment.go.
--   Storage     the repositories of those files, over a database that is a record of tables. A method
--               is a function from the tables to its result and the tables.
--   Payouts     payouts/: Setup is what the payouts are given, Payer the address of a balance, Tally
--               and Schemes the schemes of pplns.go, prop.go and solo.go, Classify and Rewards
--               unlock.go and rewards.go, Payments payer.go, Rounds a pass of manager.go. Frames is a
--               relation between the database before and after that every part of a pass respects;
--               Steps puts passes among the other changes of the database.
--   Examples    runs of the theorems at concrete inputs.
--
-- Texts are lists of character codes, bytes are numbers below 256, and a Go uint is a number below
-- 2 ^ 64 wherever its width matters; wrap-around is written out. A panic is a result, as is an error.
--
-- Loops are recursive on their list, or on a number of rounds. The ten rounds of encodeNumber are
-- enough since the write behind its nine bytes panics before; a merkle level shrinks in each round,
-- so the number of its nodes is enough; a search for a node makes as many rounds as there are
-- nodes; a search for an extranonce, which has no bound in the code, ends with the first free
-- one; four hundred digits hold every quotient of the highest target by a float64. A scheme reads
-- pages of shares for one round more than there are shares, as every page but the last is full.
--
-- A statement of the database is run, fails, or gives only its first rows, as a list says. What nodes
-- answer is a function for each pass. Go ranges over a map in any order; here it is the order in
-- which the keys came. What wallets were told to pay is kept beside the tables.
--
-- A connection is a list of events: each line has its own moment, with the time, the block, the work
-- and the nodes that are current then, and between lines other connections may change the pool. A
-- session is kept as it was when it was added, where the code keeps a pointer to the client.
--
-- Not modelled: the hash functions, floats, JSON, sockets, HTTP and the database itself are not code
-- of the repository; logging and the start of the program; the API, which prints rows of the database,
-- and the queries that only the API makes; the broadcast of work and the notifications of blocks.
pub mod Common
pub mod Hex
pub mod Encoding
pub mod Crypto
pub mod Template
pub mod Coinbase
pub mod Merkle
pub mod Format
pub mod AuxMerkle
pub mod Manager
pub mod Chain
pub mod Header
pub mod Block
pub mod Target
pub mod Share
pub mod Rows
pub mod Storage
pub mod Intake
pub mod Session
pub mod Fetch
pub mod Server
pub mod Payouts
pub mod Examples
