-- ===== src/Lib.antt =====
-- A verification library for zero-window, a chain-of-custody platform for paper examinations.
--
-- The program keeps every custody event of an examination in a transparency log (packages/log): a
-- chain of signed entries in SQLite, a Merkle tree over their hashes, signed checkpoints of its
-- roots, and a verifier that reads an evidence bundle without trusting who wrote it. The authority
-- (packages/authority) validates an item bank, splits it into paper and answers, encrypts each with
-- a key that it splits among custodians, issues admit tokens, schedules the release, and from T-0 on
-- reconstructs the key for the centres from enough custodians' shares. A centre (packages/centre)
-- takes the encrypted bundle in custody, receives its key, checks candidates in, and at T-0
-- assembles, renders and prints one paper per candidate, each step logged. packages/crypto holds the
-- hashing, signing and key code that both use.
--
-- Which file models what:
--   Prelude, Prelude/*       shared notation; lists under native numbers, results, sorting by a text
--                            key (Array.prototype.sort, ORDER BY), search in a table
--   Encoding                 Buffer's hex and UTF-8 conversions
--   Crypto/Sodium, Hash      packages/crypto/src/hash.ts, sign.ts over libsodium, which is the record
--                            `Sodium` with the documented laws `SodiumLaws`
--   Crypto/Aead              packages/crypto/src/aead.ts: aeadEncrypt, aeadDecrypt, parseAead,
--                            serializeAead; the cipher is the record `Ciphers`
--   Crypto/Box               packages/crypto/src/box.ts: seal, sealOpen, over the record `Boxes`
--   Crypto/KekEngine         packages/crypto/src/kek-engine.ts: the keys held in memory; in Custody
--                            splitAndDestroy and reconstructWrapRelease
--   Crypto/Xor, Gf256        packages/crypto/src/gf256.ts: the field of 256 elements from its tables
--   Crypto/Field             interpolation over a field in which every element is its own negative
--   Crypto/Share, Shamir     packages/crypto/src/shamir.ts: serializeShare, parseShare; shamirSplit,
--                            shamirCombine
--   Log/Canonical            packages/log/src/canonical.ts: canonicalize
--   Log/Fields               reading a payload of the log by its keys
--   Log/Merkle               packages/log/src/merkle.ts: merkleRoot, inclusionProof, verifyInclusion
--   Log/Types, Log/Store     packages/log/src/types.ts, store.ts: append (reserve, then commit),
--                            createCheckpoint, attachAnchors, evidence
--   Log/Verify               packages/log/src/verify.ts: verifyChain, verifyCheckpoints, verifyAnchors,
--                            verifyEvidence
--   Authority/Bank, Json     packages/authority/src/bank.ts: validateBank, splitBank, canonicalJson
--   Authority/Admit          packages/authority/src/admit.ts: issueAdmitToken, verifyAdmitToken
--   Authority/Medium         packages/authority/src/release.ts: buildOfflineMedium, verifyOfflineMedium
--   Authority/Store          packages/authority/src/store.ts: the tables and their constraints
--   Authority/Service        packages/authority/src/authority.ts: the state of the service, and the
--                            chaining of steps that may throw
--   Authority/Release        packages/authority/src/release.ts: signSchedule, performRelease
--   Authority/Content        packages/authority/src/bank.ts: the contents of the bundles as JSON
--   Authority/Provision      packages/authority/src/provision.ts: provisionExam, recordDistribution
--   Authority/Operations     packages/authority/src/authority.ts: enrolCentre, enrolCustodian,
--                            provision, issueAdmitTokens, scheduleRelease, releaseOffline, closeExam
--   Centre/Prng              packages/centre/src/prng.ts: DeterministicStream
--   Centre/Assemble          packages/centre/src/assemble.ts: paperSeed, assemblePaper
--   Centre/PaperHash         packages/centre/src/assemble.ts: paperContentHash
--   Centre/Store             packages/centre/src/store.ts: the tables and their constraints
--   Centre/Print             packages/centre/src/print.ts: PrintService.print
--   Centre/Node, ExamDay,    packages/centre/src/centre.ts: receiveBundle, receiveWrappedKek,
--     Papers                 receiveOfflineMedium; checkIn and the making of a paper; generatePaper,
--                            printPaper, runT0, closeExam, close
--   Centre/Ledger            the invariant of a centre, over every sequence of its calls
--   Tests                    concrete inputs, runs and the theorems at them
--
-- State is passed explicitly. A table is the list of its rows, and an insertion fails where the
-- schema's constraint fails. A call that throws returns an error next to the state it leaves, which
-- is what the source has done until then. A log append at a centre adds an event or throws, as a
-- parameter decides, after what the call has stored; Log/Store models the append itself, with
-- interleaved calls as an explicit sequence of steps. At the authority every call appends to that
-- log. What libsodium draws, the time, and the lifetime that a clock measures of
-- a key in memory are arguments.
--
-- Fuel: the recursions of the Merkle tree that halve a list take its length, and the theorems on them
-- have no fuel left as a hypothesis. The endless loop of nextBelow takes its number of tries; the
-- error `no_draw` is the model's own, and a theorem states what a draw gives with any number of tries,
-- and so how many are enough.
--
-- Not modelled: the certificate authority, the key-management back ends, RFC 3161 timestamps beyond
-- the verdict of a backend, PDF layout, HTTP servers and clients, command lines, health and metrics
-- endpoints, and the zeroing of buffers, since they call other systems or have no result to model.
-- Numbers that the source holds as JavaScript numbers are natural numbers; text is a list of UTF-16
-- code units and bytes are numbers below 256.
pub mod Prelude
pub mod Crypto
pub mod Encoding
pub mod Log
pub mod Authority
pub mod Centre
pub mod Tests
