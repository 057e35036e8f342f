-- ===== src/Lib.antt =====
-- mapit: a version control system for maps, modelled at the core of its C++ library.
--
-- A repository keeps trees, entities, commits and branches in files. A workspace starts from a branch or
-- a commit, is changed through transient objects, and is committed. The parts, from the bottom up:
--
--   TreeHash        libs/core/src/serialization/hash.h: the id of an object, by `hash_toString`.
--   Serializer      libs/core/src/serialization/file_system/fs_serializer.cpp: FSSerializer. Disk has
--                   `fs_write`, `fs_read`, `fs_delete` and the paths of the files; Objects what is stored
--                   under a hash or a name; Transient what belongs to a workspace, and
--                   `persistTransientEntitydata`. The proofs stand in Steps (what each operation
--                   changes), History, RoundTrip and Stream; Listing has `listWorkspaceNames` and
--                   `listBranches`.
--   Paths           `preparePath`, `preparePathFilename` and `forEachPathSegment` of
--                   libs/core/src/versioning/workspaceimpl.cpp.
--   Search          `depthFirstSearchGeneric` of libs/core/src/depthfirstsearch.cpp, over a data source
--                   and four callbacks; HistorySearch has the entry points of the same file.
--   BreadthFirst    libs/core/src/breadthFirstSearch.cpp; Ancestors has what both searches follow.
--   Workspace       WorkspaceImpl (libs/core/src/versioning/workspaceimpl.cpp, workspaceimpl.h): the state
--                   and what it reads; Walk and Create have `createPath`, Delete the functions that call it
--                   and `deleteObject`. The proofs stand in Resolve, History, Operations, Files, Fresh,
--                   StoreFresh and Below.
--   Repository      RepositoryImpl (libs/core/src/versioning/repositoryimpl.cpp): `createWorkspace`,
--                   `getWorkspace` and `deleteWorkspaceForced`; Commit has `commit`. The proofs stand in
--                   Lifecycle, References, Returns and Operations.
--   EntityData      libs/core/src/serialization/file_system/fs_entitydatastreamprovider.cpp, and the
--                   functions of FSSerializer and WorkspaceImpl that give a provider.
--   Operators       libs/core/src/serialization/operatorlibrarymanager.cpp and
--                   libs/core/src/operationenvironmentimpl.cpp.
--   OperatorModules Delete and Copy are the operators in libs/operator_modules_collection/delete/src and
--                   copy/src; History what they keep.
--   EntityLibrary   libs/core/src/serialization/entitydatalibrarymanager.cpp.
--   Network         libs/networking_node: a repository that is used from another machine. Node is
--                   ZmqProtobufNode; Responder, with Data and Store, the handlers of
--                   ZmqResponderPrivate; Client and Requester are ZmqRequester and
--                   ZmqRequesterWorkspace; StreamProvider is ZmqEntitydataStreamProvider. Exec has
--                   their exceptions, Messages what is sent. Link connects a requester to a responder over
--                   the sockets of Mailbox; the proofs stand below it.
--   Tools           Log is `getHistory` of tools/log/src/main.cpp; the proofs stand in Lines.
--   Time, Util      libs/core/src/time.cpp and util.cpp.
--   Status          the codes of libs/interface_cpp/include/mapit/errorcodes.h.
--   Messages        the protobuf messages, with the fields that this code uses.
--   Outcome, Base   how calls end, and what all modules share. Tests runs the operations.
--
-- How the code is read. A string is the list of its bytes. The disk is a function from paths, given by
-- their elements, to files; directories are there when they are needed, and the names `.` and `..` mean
-- nothing special. Shared pointers are values, and a null pointer is `none`; the callbacks of a search and
-- of a walk pass on the state that the C++ lambdas capture by reference. A map of protobuf is the list of
-- its entries in iteration order. SHA-256, the serialization of messages and the parsing of files are the
-- parameter `Codec`; `dlopen` and the contents of directories are parameters too. A failed assertion and an
-- exception are the outcome `thrown`, with three exceptions. The assertions of `createPath` on
-- `transientoidstoorigin` are left out, and the model goes on as a build without them does: they can fail,
-- after a commit, where an entity that was committed is stored twice. The assertion in `createWorkspace`
-- that the commit of a branch is stored is left out. The functions of a workspace that only read,
-- `getTree`, `getEntity`, `typeOfObject` and `objectReferenceForPath`, and `preparePath` assert that their
-- path is not empty; in the model they find nothing there, and `preparePath` gives the empty path, but the
-- handlers of the responder for entries, for storing and for deleting end in an error for it. Log messages
-- are left out. Stamps do not lie before the epoch, and stand for the signed 64-bit nanoseconds of C++
-- below `2 ^ 63`, where overflow is undefined.
--
-- ZeroMQ is the parameter `Net`: its calls may throw, and a state of its own goes through them. The bytes
-- of messages are the parameter `Wire`. Mailbox is one `Net`, a socket of the request-reply pattern as ZeroMQ
-- documents it, for the theorems on both sides together. A failed assertion of the node, a null pointer that
-- is followed, and a mutex that is locked twice by one thread are errors that nothing catches. Arguments
-- of a call are evaluated in order, except where a function reads an argument that another one sets: `start_read` of
-- StreamProvider takes the order as a parameter.
--
-- Fuel. The loop of `preparePath` gets the length of the path, and each round takes a byte away. The
-- loop that reads entity data needs one round more than there are bytes. The searches take fuel for
-- their depth or for the rounds of the queue; where it runs out, the outcome is `running`. The loops over
-- the parts of a message take the rounds of the `Net`; one more than there are parts is enough.
--
-- Not modelled: SHA-256 and tf2, which are copies of other projects; memory-mapped access to entity data,
-- and entity data over the network through pointers and temporary files for reading; the layer types, the
-- other modules of the operators, and the other tools.
pub mod Base
pub mod Paths
pub mod Messages
pub mod TreeHash
pub mod Status
pub mod Outcome
pub mod Serializer
pub mod Search
pub mod Workspace
pub mod Time
pub mod Tools
pub mod Repository
pub mod Tests
pub mod Ancestors
pub mod BreadthFirst
pub mod HistorySearch
pub mod Network
pub mod Operators
pub mod OperatorModules
pub mod EntityLibrary
pub mod EntityData
pub mod Util
