-- ===== src/Lib.antt =====
-- gsbm: the binary format of storage/gsbm, its encoder and its decoder.
--
-- A blob is a 12-byte header (16 bytes for a compressed blob) and a body of tagged fields. A value's
-- generated MarshalGSBM method walks its fields and calls the Writer once for each; UnmarshalGSBM
-- makes the matching calls of the Reader. Marshal runs MarshalGSBM twice, first on a Writer that only
-- counts, then on one that writes; the compressed path records the size of every region in the first
-- pass and streams the second through a codec's encoder. ReadHeader checks the header and inflates
-- the body, and DecodeInto runs UnmarshalGSBM behind it.
--
-- The tooling reads Go structs with `bin` tags. A field is parsed, its type is checked and described
-- (buildFieldDecl), embedded structs are flattened, and the resulting schema is validated and compared
-- with the one of the last release; the gate blocks a change that old blobs would not survive.
--
-- Files, and the code that each is about (paths from the repository's root):
--   Common and its children: names of the libraries, lists, bits and bytes on the native numbers.
--   Errors: the sentinel errors of storage/gsbm/gsbm.go and compress.go, and Go's (value, error).
--   Varint: varint.go. varint_len, append_uvarint, put_uvarint and read_uvarint are the functions of
--     that name; Varint/Encoding is the reference form they are compared with.
--   Wire: wire.go, and the little-endian words of encoding/binary.
--   Writer: writer.go and the write side of presence.go. Writer/State has the record and its
--     constructors, flushing and chunking; Writer/Fields the Write methods; Writer/Regions
--     BeginLengthDelim and EndLengthDelim; Writer/Cached the materialization cache and Writer/Replay
--     the two passes over a body that uses it; Writer/Calls a list of calls as data, with its wire form `encode`, the
--     specification of all modes.
--   Reader: reader.go and the read side of presence.go. Reader/State has the record and what the
--     methods share; Reader/Fields the Read methods; Reader/Regions regions and SkipField;
--     Reader/Header is ReadHeader, Reader/Source NewReaderFromN; Reader/Decode is decode_into.go;
--     Reader/Shapes is a decoder as data.
--   Compress: compress.go, and the compression methods and the flags byte of gsbm.go.
--   Marshal: Marshal, MarshalWithOptions and MarshalToWriter of gsbm.go.
--   Sizing: sizing.go, and the calls that the generator emits for an optional field. Intern: intern.go.
--   Pool: the bump allocators of allocator.go and of storage/gsbmarena/arena.go, and MakeSlice's budget.
--   Schema: the types of tools/gsbmschema; Schema/Width the widths of wireoverride.go, Schema/Field and
--     Schema/Classifier the diff of two snapshots in classifier.go, Schema/Gate the verdict on it in
--     runner.go.
--   Schema/Tag: the struct tags and the comment directives of tools/gsbmschema/parse.go.
--   Schema/GoTypes: the part of go/types that the tooling looks at. GoTypes/Supported is
--     checkSupportedType and GoTypes/Shape fillTypeShape, both of discover.go; GoTypes/Override is
--     WireOverrideCompat of wireoverride.go.
--   Schema/Build: from a Go field to its FieldDecl, buildFieldDecl of discover.go and idref.go;
--     Build/Embed collectStructFields and flattenAnonymous; Build/Collisions
--     checkFlattenedTagCollisions.
--   Schema/Validate: validateStruct of validate.go; Validate/Refs collectRefs; Validate/Cycles
--     validateNoCycles and its diagnostic; Validate/Whole Validate.
--   Codecs: tools/gsbmcodegen/codecs/registry.go.
--   Tests: runs on concrete inputs.
--
-- State is passed explicitly: a method takes a record and returns the changed one, and a Read method
-- returns a Result beside it. A byte slice is a list of numbers, a uint64 a number with its
-- wrap-around written out, an int64 its two's complement pattern. Loops recurse on their list, on the
-- value that shrinks, or on fuel: the chunk loop on the length of its payload, since every round takes
-- a byte; readUvarint on the ten rounds that the source allows; the skipping decode loop on the bytes
-- left, since every field takes one at least; defaultIntWidthFromTypeString on one more than the
-- length of its text, since every call is on a shorter one; collectRefs likewise; the search for
-- cycles on one more than the number of structs, since a call marks a struct that was not marked;
-- collectStructFields on two more than the number of structs, since an embed enters a struct that is
-- not on the chain. An `io.Writer` is a Sink: what it took,
-- and the error with which it answers a payload; a Write that fails takes nothing. An `io.Reader` is a Stream: its
-- bytes, and the error that it ends with. The codecs of klauspost/compress are a record of functions,
-- and the theorems that need their behaviour take it as the hypothesis CodecLaws. An Allocator is a
-- function of the bytes. A Go map is a list of its entries.
--
-- A Go type is finite in the model: it carries its underlying type, and a struct's fields are kept
-- apart, under the struct's key; so a type like `type T []T`, which Go accepts and on which shapeOf does
-- not end, has no counterpart, and what is said of field types leaves such types out. The printed form of a type (types.Type.String), the package set's
-- comments and fields, and the value that reflect.StructTag.Lookup finds are parameters.
--
-- Not modelled: the object pools around the codecs, which recycle objects and no data; the capacity of
-- Go slices, the wrap-around of their lengths past Go's int, and the aliasing of a Reader's strings with its source; the deprecated presence sidecar;
-- DecodeInterned; the text of Change.Detail and the order in which Classify sorts its changes, which
-- are for people, as the positions and words of an Issue are; the loading of Go source; the queue of
-- BuildSchema and the sorting of its result; snapshots in YAML and their hash; the code generator,
-- which prints Go text, but for its codec registry, the calls that it emits for an optional field and
-- for an unknown tag; the built-in codecs; the command line.
pub mod Common
pub mod Errors
pub mod Varint
pub mod Wire
pub mod Compress
pub mod Writer
pub mod Reader
pub mod Marshal
pub mod Codecs
pub mod Intern
pub mod Pool
pub mod Schema
pub mod Sizing
pub mod Tests
