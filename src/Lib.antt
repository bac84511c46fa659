-- ===== src/Lib.antt =====
-- BeHierarchic serves the inside of old archives and disk images as one directory tree. This
-- library models its parts in Go and proves what makes them correct.
--
-- internal/fskeleton is the in-memory tree that every archive reader fills: a table of files, a map
-- from paths to indices, and circular lists of siblings, behind one lock. A call under the lock is
-- one function from state to state, and `cond.Wait` is a result that says so.
--   Fskeleton/State: struct.go, `New`, `put`.   Fskeleton/Create: create.go.
--   Fskeleton/Attr and Size: size.go, bozo.go.   Fskeleton/Lookup: `lookup` of use.go, with
--   the way along components and links in Lookup/Trace.
--   Fskeleton/Dir: dir.go.   Fskeleton/Mode: mode.go.   Fskeleton/Time: time.go.
--   Fskeleton/Tree: what a well-formed tree is, and what keeps it so.   Fskeleton/Reach: any
--   sequence of calls.   Fskeleton/Use: use.go, direntry.go, file.go.   Fskeleton/Walk: walk.go, as
--   rounds between other calls.   Fskeleton/Runs and Sessions: concrete runs.
-- A slice is a function with a length; reads past the length are panics in Go, and the tree's
-- invariant says that no index of the table is out of range. Indices are `uint32`, so the calls that
-- add files have the hypothesis that the table has room. `climb` needs no fuel; `read_loop` has one
-- round more than there are files; `walk` may follow as many links as there are files, and the
-- theorems show that these are enough. Readers and errors are handles (numbers).
--
-- internal/internpath keeps canonical paths. Intern/Path has a path as the list of its components,
-- the last one first, which is what the rest of the program sees of it. Intern/Table has what is
-- inside: htab.go and the area of internpath.go, in which a path is an offset, for any hash function.
-- A probe loop has as many rounds as there are slots. The lock is held for a whole call, and the area
-- is the bytes up to `bump`; where it would pass 2³¹ bytes the model stops, and the code up to
-- seven bytes before. Intern/Text: `Path.String`
-- with its buffer, in as many rounds as are given.
-- Intern/Pack: packint.go, whose area is a list of bytes with zeros after its end.
--
-- internal/hfs reads plain HFS volumes and fills such a tree. Hfs/Btree: btree.go. Hfs/Extents:
-- accumreader.go and the extents of hfs.go. A tree is read by a function from an offset to the bytes
-- that a read of 512 gives. `leaves` has one round more than there are nodes that `accumReader`
-- reads, which end by 2³² bytes; `chase` has one round more than a `uint16` has values. The overflow
-- map is taken for one CNID and fork, as a function of the number of blocks.
-- Hfs/Catalog: the loop of `New2` over the catalog, as the list of the calls that it makes, and
-- `dirPaths`, whose depth is bounded; each record has all the bytes that are read of it. A name goes
-- through Hfs/Roman, which has the table of unicode.go.
--
-- internal/appledouble gives the header that stands before a resource fork. Appledouble: reader.go, the
-- stream and the reader at offsets; the fork is a parameter with the contract of `io.Reader` or
-- `io.ReaderAt`. Appledouble/Header: `MakePrefix` of core.go, whose table and records are put together at
-- the end. Appledouble/Finder: gen.go, with times as distances from 2000 in nanoseconds.
--
-- internal/resourcefork reads a resource fork. Resourcefork: the map of resourcefork.go with each slice
-- expression checked, so that a panic is an outcome, and the two searches for the fork in an
-- AppleDouble file, of which probe.go has one. Whether a short read fails with `io.EOF` is a parameter.
--
-- The main package lays the archives over each other. Overlay: fs.go with the table of mounts, `FS.path`
-- of path.go, and the partial listings of readdir.go. `getArchive` is one function from state to
-- state, so its calls come one after the other. What probing says of a path and what a generator gives
-- are parameters there, functions of the path, as for files that do not change; a file system is a
-- handle. Overlay/Resolve has the resolution without a table that `FS.path` is compared with.
-- Overlay/Format: `probeArchive` of probe.go, with the calls on a file as a record of what they give;
-- the runs of Overlay use it.
--
-- internal/spinner gives random access to a file that is read from its start. Spinner: bitmap.go and the
-- blocks of a read in spinner.go; Spinner/Multiplexer: the turns of `multiplexer` on the worker of one
-- file, a read that comes in, a block that is returned and the request that is sent next. A buffer is
-- a function with a length, an error a number, and the block cache a parameter. `from_cache` has as
-- many rounds as the read has blocks.
--
-- internal/sectionreader cuts a part out of a reader. Sectionreader: sectionreader.go, where an `int64`
-- is a number below 2⁶⁴ and a reader is an `*io.SectionReader` or another one, known by a handle.
-- `ReadAt` of either is a parameter with the contract of `io.ReaderAt`.
--
-- Not modelled: the other archive readers, the table of workers of internal/spinner and its popularity,
-- the walks over mounted archives, and the generators that probe.go returns. prefetch.go is a cache of reads on a
-- database. internal/tar, internal/webdavfs and internal/multireaderat are copies of other projects'
-- code.
pub mod Prelude
pub mod Intern
pub mod Fskeleton
pub mod Hfs
pub mod Appledouble
pub mod Resourcefork
pub mod Overlay
pub mod Spinner
pub mod Sectionreader
