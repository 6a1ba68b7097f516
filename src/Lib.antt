-- ===== src/Lib.antt =====
-- The ownCloud iOS SDK: how it keeps changes of files in order until the server has them, and the items,
-- conditions, shares, requests and issues that it works with.
--
-- An action on a file (an upload, a deletion, ...) is a sync record in the journal of a vault's
-- database. Each record stands on a sync lane, which is chosen by the tags of the paths that the
-- action touches; lanes with conflicting tags wait for one another. The sync engine passes over the
-- lanes and, on each of them, over the records: it delivers events, evaluates wait conditions,
-- schedules actions and performs the instruction that the processing of a record answers. Several
-- processes (the app and its extensions) share the journal, and records are left to the process that
-- made them while it runs. Claims say how long local copies of files are kept, and values of the
-- key-value store that are tied to a claim are current as long as the claim is valid.
--
-- Process: ownCloudSDK/Toolkit/OCProcessManager.m. A state file is an entry of a function from bundle
-- identifiers; the answer to a ping is a field.
-- Claim (Create, Locks, Removal): ownCloudSDK/Core/Claims/OCClaim.m. Claims and groups are two data
-- types in a mutual block; `isValid` reads the processes, the clock and the running cores from Env.
-- KeyValueStack: ownCloudSDK/KV Store/OCKeyValueStack.m.
-- EventQueue: ownCloudSDK/Events/Internal/OCEventQueue.m.
-- Lane: ownCloudSDK/Core/Sync/Record/OCSyncLane.m, and the lanes of
-- ownCloudSDK/Vaults/Database/OCDatabase.m.
-- Record: ownCloudSDK/Core/Sync/Record/OCSyncRecord.m.
-- Engine: the journal of ownCloudSDK/Vaults/Database/OCDatabase.m and the state of the core, a World
-- that every operation takes and gives back.
-- Engine.Context: ownCloudSDK/Core/Sync/Context/OCSyncContext.m, and what the engine does with it.
-- Engine.Action: the methods of ownCloudSDK/Core/Sync/Actions/OCSyncAction.m, as an interface and as
-- the base class has them.
-- Engine.Incoming: the way of an event from the queue in the key-value store to the database, in
-- ownCloudSDK/Core/Sync/OCCore+SyncEngine.m.
-- Engine.Waits, Engine.Step, Engine.Pass: ownCloudSDK/Core/Sync/OCCore+SyncEngine.m, for a record's
-- wait conditions, for one record, and for a pass over all of them.
-- Item (Metadata, Sync, Attributes): ownCloudSDK/Item/OCItem.h and OCItem.m. The objects that an item
-- refers to are addresses, a counted set is a list, and masks are numbers whose flags are given by
-- position (Prelude.Bits).
-- Query (Fulfilled, Sql): ownCloudSDK/Query/Condition. Conditions, values and arrays of conditions are
-- three data types in a mutual block; an exception of the builder is none.
-- Share, User: ownCloudSDK/Share. Tus: ownCloudSDK/TUS/OCTUSHeader.h and OCTUSHeader.m; the bit fields of
-- the packed number are divisions and remainders. Checksum: ownCloudSDK/File Handling/Checksums.
-- Errors: ownCloudSDK/Errors. Http (Names, Status, Response, Request): ownCloudSDK/HTTP/Request,
-- HTTP/Response and HTTP/Status. Tus.Job: ownCloudSDK/TUS/OCTUSJob.h and OCTUSJob.m; files are a dictionary
-- from URLs to bytes, and reading and writing of files that are there does not fail. Bookmark (Storage):
-- ownCloudSDK/Bookmark; the keychain is an argument. Event (Targets): OCEvent and OCEventTarget of
-- ownCloudSDK/Events. Dictionaries are lists of keys and values (Prelude.Dictionaries), texts
-- are lists of characters (Prelude.Texts).
-- Issue (Decisions): ownCloudSDK/Issues. A group holds issues that are no groups, and the calls of
-- handlers are written down in order.
-- LockManager (Exclusive): ownCloudSDK/Lock Manager. The database of locks is what the store holds, the
-- manager is given and taken back, and the handlers that are called are written down in order.
-- Activity (Coalesced): ownCloudSDK/Activity; the object of an activity is a record with its address.
-- SyncIssue (AutoChoice): ownCloudSDK/Core/Sync/Issue, and the choices and templates of
-- ownCloudSDK/Message Queue; choices are values.
-- ItemPolicy (Selection): ownCloudSDK/Core/ItemPolicies, what the processors of all kinds share.
-- Http.Pipeline (Collect, Order, Schedule, Finish): ownCloudSDK/HTTP/Pipeline, of which
-- OCHTTPPipeline.m has the logic. The rows of the backend's database are a list, the queue of blocks is a list of data that `run_next` takes
-- up one by one, the handler of a partition is a record of functions, and a result that is handed over is
-- written down. What the system makes of a request is a field of Surroundings.
-- NameConflicts (First, Numbers): ownCloudSDK/Core/NameConflicts; what Foundation does with texts is an
-- argument, and a search that has used up its rounds gives none.
-- Cellular: ownCloudSDK/Cellular; user defaults and the state of the network are fields of Device.
-- Prelude holds the shared names and lemmas, Examples runs on concrete data.
--
-- UUIDs, identifiers, dates and error codes are numbers; `address` is the identity of an object where
-- the code compares objects. Whether the database can be read and written is a field of the world.
-- Fuel bounds the two loops of Engine.Step and the rounds on a lane in Engine.Pass, where one round more
-- than there are rows in the journal is enough if no record is repeated or deleted; a loop that is
-- out of fuel gives none, and so does the loop of Tus.Job that copies, for which one round more than there
-- are bytes to copy is enough. For events one round more than there are events is enough, and for wait
-- conditions that do not fail one round; NameConflicts needs one round more than there are refused names before
-- the first name that is not.
--
-- Not modelled: coding of most objects and their descriptions, logging, progress,
-- notifications, the activities of sync records and of scans, the changes of items in the database, the
-- concrete actions, the submission of records,
-- the callbacks of NSURLSession, the destruction of partitions and the connection.
pub mod Prelude
pub mod Process
pub mod Claim
pub mod EventQueue
pub mod Lane
pub mod NameConflicts
pub mod Record
pub mod Engine
pub mod KeyValueStack
pub mod Examples
pub mod Tus
pub mod Checksum
pub mod User
pub mod Item
pub mod Share
pub mod Errors
pub mod Http
pub mod Query
pub mod Issue
pub mod Bookmark
pub mod Event
pub mod LockManager
pub mod Activity
pub mod SyncIssue
pub mod ItemPolicy
pub mod Cellular
