-- ===== src/Lib.antt =====
-- LayerMount: an overlay file system engine for Windows. A writable upper directory and read-only
-- lower directories are shown as one merged directory tree. This library models the read side of
-- the engine below its file system host: which layer a path resolves from, what a merged directory
-- lists, the cache in front of the resolution, and the table of handles of the C ABI. Of the write
-- side it models the moves of upper entries and of their sidecar records, the writes of whiteouts,
-- and the undo of a rename.
--
-- The parts and how they interact:
-- * Layer.Disk holds the Win32 probes of the layers as a record of functions, and the kinds of
--   entries (src/LayerMount.dll/impl/LayerPath.cpp: IsDirectoryLink, EntryKindOf,
--   ComponentKindInLayer). A path below a layer root is the list of its components, and the input
--   is normalized already.
-- * Layer.Walk, Layer.Ancestry and Layer.View model the rest of the read side of LayerPath.cpp:
--   WalkToFirstNonDirectory, FindLinkOnPath, HasLinkUnderHigherLayerEntry, StepLayerAncestry,
--   LayerAncestryOf and FindLinkInView. Layer.Markers models the reads of WhiteoutManager.cpp and
--   LowersBelow. Layer.Names models marker names; the case folds of Win32 are parameters.
-- * Layer.Lookup models FindInLowers and HidingInUpper of PathResolver.cpp. Layer.Merge and
--   Layer.Listing model DirectoryMerge.cpp: the scan of a layer, the merge of the layers, and the
--   merge of a child directory from the ancestries of its parent.
-- * Layer.Tree states what a file system guarantees of a layer, as hypotheses: a probe below a
--   missing entry or a file finds nothing, and no opaque stream or sidecar record stands there.
--   Layer.Consistency.Folding states what is asked of the case folds, and
--   Layer.Consistency.Merges that a complete enumeration lists what the probes find.
--   Layer.Consistency compares the listing with the lookup.
-- * Cache models impl/Cache.cpp. The map is a list of entries, whose order stands for the order in
--   which the eviction visits them. The time is an argument, and the locks are left out: each
--   operation is one step.
-- * Resolver models ResolvePath, ResolveLowerPath and ResolveForCreate of PathResolver.cpp over the
--   cache, whose state goes in and comes out of each call. The redirect in the metadata of an upper
--   entry is a parameter. The recursion is on the number of redirects that are left, 41 for the
--   limit of 40 in the source, so it needs no other bound.
-- * Links models SplitComponents, JoinComponents, ResolveRelativeTarget and SpliceLinkTarget, and
--   Resolver.Through models ViewPathThroughLinks over them and the resolver, on the components of
--   the caller's path. Its recursion is on the links that may still be followed, 41 walks for the
--   limit of 40, and on the components that are left. The reparse read is a parameter.
-- * Handle models src/LayerMount.dll/abi/HandleTable.h. Whether a vector can grow when a slot goes
--   back on the free list is an argument.
-- * Tracker models CsvEscape, WildcardMatch and the classes of operations of
--   src/LayerMount.dll/impl/ProcessTracker.cpp. The case fold is the same parameter as in
--   Layer.Names. Tracker.Log models the ring of log entries, and Tracker.Access the cache of
--   processes and the access check over the ring; the queries about a process are a parameter.
-- * Status models NtStatusUtil.cpp, with the errors and the status codes by their names.
-- * Sidecar models the moves, removals and probes of impl/SidecarMetadata.cpp, and Sidecar.Records
--   the walks of MetadataStore.cpp over the records of an entry and of those below it. The calls
--   that change files are a record of functions over a world that is a parameter, and
--   Sidecar.Effects states what Win32 documents of them. A walk is a recursion on what the
--   enumerations list, so it ends.
-- * Upper models the moves, the probe and the removal of an upper entry, with its records
--   (LayerPath.cpp: MoveUpperEntry to RemoveUpperEntry), over the same world. Upper.Moves states what
--   Win32 documents of a rename.
-- * PathText models the text forms of paths at the start of LayerPath.cpp, on code units.
-- * Whiteouts models the writes of WhiteoutManager.cpp over the reads of Layer and the cache, and
--   Rollback models impl/RenameRollback.cpp over Upper and Whiteouts. Boundary models
--   impl/RenameLinkBoundary.cpp over the links in the view. GetStoredUpperPath of PathResolver.cpp
--   stands in Rollback, with FindFirstFileW as a parameter.
-- * LastError models the last error of a thread of the C ABI (abi/ErrorTls.cpp). An allocation that
--   can fail is a flag.
--
-- The errors of scans and probes are kept as Outcome values with their code; on the read side the
-- mapping of a Win32 error to an NTSTATUS is left out, and a scan that fails always makes the
-- listing fail. The lower index -1 is `none`.
--
-- Not modelled: the rest of what writes to a layer (copy-up, the renames themselves, the contents of
-- sidecar records and streams), the load of access rules and the exports
-- of the log, layer images, virtual disks, snapshots, the rest of the ABI,
-- the .NET wrapper, and the vendored zstd and nlohmann json.
pub mod Base
pub mod Layer
pub mod Cache
pub mod Resolver
pub mod Handle
pub mod Links
pub mod Tracker
pub mod Status
pub mod Sidecar
pub mod Upper
pub mod Whiteouts
pub mod Rollback
pub mod PathText
pub mod Boundary
pub mod LastError
