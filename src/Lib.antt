-- ===== src/Lib.antt =====
-- Verification of fairOS-dfs, a decentralised file system over Swarm: the logic of its packages
-- under pkg/, translated from the Go source by hand.
--
-- Lookup (pkg/feed/lookup) says in which epoch, a period of 2 ^ level seconds, an update of a feed
-- is placed and how the latest update is found again. Lookup.antt has Epoch and GetNextEpoch with
-- what they use; Lookup/Codec the byte forms of an epoch; Lookup/Fluz the sequential search
-- FluzCapacitorAlgorithm, one round and its loop; Lookup/BaseTime, NextLevel and Period the
-- arithmetic; Lookup/Tree and Placement the shape that GetNextEpoch gives to a feed's updates, as a
-- handler (createSoc, newRequest and updateSoc of pkg/feed/handler.go) makes them one after another.
-- The loop of the search runs on fuel, and 34 * now + 66 rounds are shown to be enough. The reader
-- is an argument, with the contract written at ReadFunc in lookup.go as the hypothesis Reads:
-- the update in the epoch's slot, unless its time is after `now`. The concurrent LongEarthAlgorithm,
-- which is the default, is not modelled; the context and its cancellation are left out.
--
-- Utils (pkg/utils/utils.go and address.go) has the functions that the other packages share.
-- Utils/Paths has CombinePathAndFile, which makes the path of a directory's child, Utils/Hex the hex
-- strings with Go's encoding/hex, Utils/Address the addresses of twenty bytes. Utils/Sharing
-- has sharing and reference strings (sharing.go, reference.go), with the decimal numbers of Go's
-- strconv in Utils/Decimal; the time of day of ParseSharingReference is an argument, by its number of
-- digits. The hashes, chunks and random strings of utils.go are not modelled.
--
-- Acl (pkg/acl/acl/controller.go) has the groups, their members and permissions: the map in
-- memory, and the file of each group. Its calls of pkg/file and of encoding/json are the interface
-- Backend with the laws IsBackend; a call that assigns into a nil map panics, which is an error of
-- its own. One call runs at a time, as under the lock of the source.
--
-- File (pkg/file) has the reader of a file's blocks, File/Reader (reader.go): Read and Seek as
-- functions of the reader's record. getBlock, which downloads and decompresses a block, is the
-- argument `fetch`; the cache of blocks, ReadLine with its buffer, and a Seek to a negative offset
-- are left out. File/Reader/Content says when blocks hold a content and where a reader stands in
-- it, and Whole reads to the end as io.ReadAll does, with fuel for as many reads as there are bytes.
--
-- File/Meta has the metadata of files (file.go, meta.go, rm.go, chmod.go): the map in memory and the
-- feed of each path, with RmFile and Chmod in Meta/Modify. The map points to the metadata: where Chmod
-- changes it, the entry of the map changes first. Feeds, blobs and JSON are the interface Backend, with the laws IsBackend of
-- Meta/Feeds; Meta/Renamed and Meta/Removed follow RenameFromFileName, RmFile and Chmod. The upload and
-- the download of blocks, and writing into a file, are not modelled.
--
-- Dir (pkg/dir) has the inodes of a pod's directories: the cache of inodes and the index files
-- behind it (inode.go, dir.go), the entries of a directory (modify_dir_entry.go), Chmod, the counts
-- of DirStat and IsDirectoryPresent. An inode is a value: where the source changes the object that
-- the cache points to, the model changes the entry of the cache. Files, feeds and JSON are the
-- interface Backend, with the laws IsBackend of Dir/Entries. Dir/Make has MkDir, MkRootDir,
-- AddRootDir and RemoveInode, with Go's path/filepath for Unix from Prelude/Filepath; Dir/Made and
-- Dir/MkDir follow them. RmDir, RenameDir, ListDir and SyncDirectory are not modelled.
--
-- Collection (pkg/collection) has the index of a table: a tree of manifests, each with the entries
-- behind one prefix of the keys (entry.go, index.go, index_api.go). Collection/Entries has the loops
-- over the entries of one manifest, Manifests what is stored, Types the types of an index as text,
-- Index the operations, and Index/Count IsEmpty and CountIndex. A loop that changes entries, loads a
-- child or stores a new manifest is first a value of Change or Scan, which the operation then carries
-- out. Feeds, blobs and JSON are the interface Backend; JSON keeps the texts that are valid UTF-8
-- (Prelude/Text/Utf8) and replaces others. The recursion into child manifests has fuel: the length of
-- the key and two, which covers one child for each byte of the key. Put into manifests in memory and
-- batches are not modelled. Collection/Node says what the entries of a manifest answer and when they
-- are in order, and follows what a Put makes of them;
-- Manifests/Stored says what is asked of the backend and follows one manifest to its feed and back,
-- Index/Answers the recursion of Put, and Index/Life CreateIndex, OpenIndex and DeleteIndex.
-- Collection/Tree is the tree of manifests behind an index: Tree says that all of it is there, Reads
-- what it has for a key, and Tree/Entered, Divided and Descended what is left of it by the three ends
-- of a Put. Tree/Added follows the recursion of Put, Tree/Found that of Get, and Tree/Puts states both
-- against a map from keys to references, for ASCII keys, of which Put makes valid UTF-8 (Node/Utf8).
-- Tree/Outside and Tree/Apart follow the manifests of other names meanwhile, for any key. That a
-- backend leaves other feeds alone, and that names that differ have hashes that differ, is the record
-- IsSeparate of Manifests/Frames.
-- Collection/Iterator (iterator.go) has NewStringIterator, Seek and Next; what a handle that is not
-- mutable holds in memory is an argument, and the stack is a list with the top first. Next pushes one
-- manifest in each step of its recursion, which has fuel; Iterator/Listing counts the manifests that
-- are still to be loaded, and one more is enough. Iterator/Seek makes an iterator, Next follows one
-- call, Collect the loop of a caller, Leaves, Visits and Whole compare what it gives with Get.
-- NewIntIterator and the keys of numbers are not modelled.
-- Collection/KeyValue (kv.go) has the tables of a pod over indexes: the file that lists them, with its
-- text as Go prints and reads it, and making, opening and deleting a table; the map of the list keeps
-- the order in which names were entered. KeyValue/Entry has KVPut, KVGet and KVDelete, with the count
-- of a table's index beside it; the text that ParseFloat and PutNumber make of a number is an argument.
pub mod Prelude
pub mod Acl
pub mod Collection
pub mod Dir
pub mod File
pub mod Lookup
pub mod Utils
pub mod Tests
