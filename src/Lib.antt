-- ===== src/Lib.antt =====
-- A verification library of clayers: a content-addressed, versioned store of XML documents.
--
-- The program keeps XML as a Merkle DAG. Documents are split into objects (elements, texts, comments,
-- processing instructions, documents), trees map file paths to documents, commits and tags refer to
-- trees and to each other, and every object is stored under the hash of its canonical form. A store
-- keeps the objects and the named refs; transactions write objects in batches. On it stand the walk of
-- the commit graph, the synchronisation of two stores, the comparison of trees, and the three-way merge.
-- A server gives clients named stores over connections, and tells each of the refs that others change.
--
-- The files, and the code that they model (paths from the repository's root):
--   Error, Action        crates/clayers-repo/src/error.rs and crates/clayers-xml/src/error.rs; results,
--                        and calls that write: a result with the state that the call leaves behind
--   Object               crates/clayers-repo/src/object.rs: the objects and their links
--   Object/Tree          TreeObject::new, get and paths; Object/Tree/Sorted has the proofs
--   Store                crates/clayers-repo/src/store/mod.rs: the traits as records of operations
--   Store/Lawful         what the clients of a store rely on, as laws between the operations
--   Store/Subtree        subtree_walk, and try_collect_stream (crates/clayers-repo/src/sync.rs); below it
--                        Reach, Yields, Exact (what is collected) and Ends (that the walk ends)
--   Store/Memory         crates/clayers-repo/src/store/memory.rs: all operations of the store and of its
--                        transactions; below it Transactions, Lifecycle, Refs and Backend
--   Graph                crates/clayers-repo/src/graph.rs: common_ancestor and walk_history; below it
--                        Queue, Rounds, Common, Disjoint, CommonEnds, History and HistoryEnds
--   Sync                 crates/clayers-repo/src/sync.rs: the conflict policies, transfer_objects,
--                        sync_ref and sync_refs; below it Transfer, SyncRef, FastForward and Ends
--   Merge/ThreeWay       the specification of merging one value
--   Merge/Attributes     merge_attributes (crates/clayers-repo/src/merge.rs); below it Values and Refines
--   Merge/Policy         the types, MergePolicy and the built-in strategies of the same file
--   Merge/Trees          merge_trees, resolve_file_conflict and generate_divergence_doc of the same file;
--                        below it Steps and Turns (one turn of the loop), Loop and Refines
--   Merge/Children       ChildKey and key_children of the same file; Merge/Children/Keys has the proofs
--   Merge/Elements       the merge of three elements' children, of the same file; below it Recursion with
--                        merge_documents, merge_elements_cached and collect_subtree, and the proofs in
--                        Children, Merged, Stored and Documents
--   Conflict             has_conflicts and list_conflicts (crates/clayers-repo/src/conflict.rs);
--                        Conflict/Listed compares the two
--   Diff/Trees           diff_trees (crates/clayers-repo/src/diff.rs); Diff/Trees/Exact has the proofs
--   Diff/Nodes           diff, diff_attributes and diff_children of the same file; Diff/Nodes/Empty has
--                        the proofs
--   Refs, Repo           crates/clayers-repo/src/refs.rs and repo.rs: the ref paths, and trees, commits,
--                        branches, tags and merges of a repository; below Repo, Commit and Outcomes
--   Remote/Protocol      crates/clayers-repo/src/store/remote/mod.rs: the messages
--   Remote/Server        crates/clayers-repo/src/store/remote/server.rs: the state, subscriptions and
--                        notifications; Remote/Server/Handlers has handle and what it calls; below
--                        Remote/Server, Subscriptions, Consistent, Serving and Invariant (consistency),
--                        Isolation, Sent and Notified, Replies, Race, and Local, where the in-memory store
--                        is served
--   Remote/Client        crates/clayers-repo/src/store/remote/client.rs: the reader and the requests;
--                        below it Reader, Streams, Connected (a client and a server), Agreement, Subtree
--                        and Transaction
--   Xml/Hash             the text of a hash (crates/clayers-xml/src/hash.rs); Xml/Hash/RoundTrip has the proofs
--   Prelude              shared names, lists, association lists and the order of paths
--   Examples             small stores, histories, trees, attribute lists, documents, servers and clients
--
-- How the code is read. An asynchronous function that reads is a function from the store's state into a
-- Result; one that writes is an Action, which gives the state back also when it fails. A trait object is
-- a record of operations, or a parameter. A HashMap or HashSet is a list; no theorem rests on its order,
-- and where the code iterates over one, the order is the list's, or a parameter (Documents.iterate). A
-- content hash is a number, since only equality of hashes is used, but for Xml/Hash, where it is its bytes. A stream is its items and how it
-- ended. The in-memory store's locks are held for each whole operation, so each operation is one step;
-- get_by_inclusive_hash, which only reads, takes the two locks in turn. The server handles a message in
-- one step; a transaction of it names its store, and each repository name has a store of its own (two
-- names of one shared store, which server.rs allows, are not modelled). A client's call is one exchange: what arrives are the
-- notifications on their way and then the replies to its own message.
--
-- Loops over a graph take fuel. Store/Subtree/Ends, Graph/CommonEnds and Graph/HistoryEnds give, for a
-- store of finitely many objects, an amount of fuel with which the loop always ends; the other results
-- hold for any fuel with which the code gives an answer. The structural diff takes one unit for each
-- level of the two documents, the search for conflicts one for each level of its document, and the merge
-- of elements one for each level at which both sides changed and, for the objects that it collects, one
-- for each level below a merged child. A call that waits for ever is modelled as one without fuel.
--
-- Not modelled: conversion to and from XML, canonicalization and hashing, which rest on the XML and
-- hashing libraries (Merge/Trees takes them as the record Documents, Merge/Elements as Hashing, Repo the
-- hash of an object); the SQLite store; websockets and the encoding of messages; queries; the rest of
-- clayers-xml, and the other crates (clayers-spec, clayers-search, the command line and the Python bindings).
pub mod Prelude
pub mod Error
pub mod Action
pub mod Object
pub mod Store
pub mod Graph
pub mod Sync
pub mod Merge
pub mod Diff
pub mod Refs
pub mod Repo
pub mod Conflict
pub mod Xml
pub mod Remote
pub mod Examples
