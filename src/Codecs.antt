-- ===== src/Codecs.antt =====
-- tools/gsbmcodegen/codecs/registry.go: the registry of named codecs. The mutex is left out: each call runs
-- alone. An error is its message's kind.
pub mod Sound
use gsbm.Common.{
  ℕ, Bool, true, false, not, ◌&&◌, ◌||◌, Option, none, some, List, [], ◌∷◌, ◌++◌, map, codes,
}
use gsbm.Common.{if◌then◌else◌}
use gsbm.Reader.Header.{same_bytes}
use gsbm.Schema.{Text, is_empty}
use gsbm.Schema.Tag.{among}
use gsbm.Schema.Classifier.{assign, find}
use gsbm.Schema.GoTypes.Shape.{wire_varint, wire_fixed64, wire_fixed32, wire_length_delim}

-- CodecKind, with the zero value that no constant names
pub data CodecKind : Type 0 where
  no_kind analytic materializing streaming : CodecKind

-- CodecDecl
pub record CodecDecl : Type 0 where
  pub name : Text
  pub go_type : Text
  pub wire_type : Text
  pub encode_fn : Text
  pub decode_fn : Text
  pub size_fn : Text
  pub emit_fn : Text
  pub stream_fn : Text
  pub pkg_import : Text

-- CodecDecl.Kind
unfoldable pub kind_of : CodecDecl → CodecKind
kind_of c =
    if not (is_empty c.emit_fn)
      && (is_empty c.size_fn && (is_empty c.encode_fn && is_empty c.stream_fn))
    then materializing
    else if not (is_empty c.stream_fn)
        && (is_empty c.size_fn && (is_empty c.encode_fn && is_empty c.emit_fn))
    then streaming
    else if is_empty c.emit_fn
        && (is_empty c.stream_fn && (not (is_empty c.size_fn) && not (is_empty c.encode_fn)))
    then analytic
    else no_kind

-- isKnownWireType
unfoldable pub is_known_wire_type : Text → Bool
is_known_wire_type wt =
    among wt (wire_varint ∷ wire_fixed64 ∷ wire_fixed32 ∷ wire_length_delim ∷ [])

-- WireIdent
unfoldable pub wire_ident : Text → Text
wire_ident wt =
    if same_bytes wt wire_varint
    then codes "WireVarint"
    else if same_bytes wt wire_fixed64
    then codes "WireFixed64"
    else if same_bytes wt wire_fixed32
    then codes "WireFixed32"
    else if same_bytes wt wire_length_delim
    then codes "WireLengthDelim"
    else []

-- The errors of Register
pub data RegisterError : Type 0 where
  empty_name no_decode_fn stream_conflict emit_conflict no_encode_fn no_size_fn : RegisterError
  unknown_wire_type duplicate_codec : RegisterError

-- Registry
abbrev pub Registry : Type 0
Registry = List (Text × CodecDecl)

-- The registry after the call, and its error.
pub record Registered : Type 0 where
  pub registry : Registry
  pub error : Option RegisterError

abbrev pub rejected : Registry → RegisterError → Registered
rejected r e = record { registry = r; error = some e }

abbrev pub accepted : Registry → Registered
accepted r = record { registry = r; error = none }

abbrev pub has_analytic : CodecDecl → Bool
has_analytic c = not (is_empty c.size_fn) || not (is_empty c.encode_fn)

-- The switch on the shapes that are declared
unfoldable pub shape_error : CodecDecl → Option RegisterError
shape_error c =
    let has_emit = not (is_empty c.emit_fn) in
    let has_stream = not (is_empty c.stream_fn) in
    if has_stream && (has_emit || has_analytic c)
    then some stream_conflict
    else if has_emit && has_analytic c
    then some emit_conflict
    else if has_emit || has_stream
    then none
    else if is_empty c.encode_fn
    then some no_encode_fn
    else if is_empty c.size_fn
    then some no_size_fn
    else none

-- The checks of Register, in their order
unfoldable pub decl_error : CodecDecl → Option RegisterError
decl_error c =
    if is_empty c.name
    then some empty_name
    else if is_empty c.decode_fn
    then some no_decode_fn
    else elim (shape_error c) [
      | some e ↦ some e
      | none ↦ if is_known_wire_type c.wire_type then none else some unknown_wire_type
    ]

-- `existing == c`
unfoldable pub same_decl : CodecDecl → CodecDecl → Bool
same_decl a b =
    same_bytes a.name b.name
    && (same_bytes a.go_type b.go_type
        && (same_bytes a.wire_type b.wire_type
            && (same_bytes a.encode_fn b.encode_fn
                && (same_bytes a.decode_fn b.decode_fn
                    && (same_bytes a.size_fn b.size_fn
                        && (same_bytes a.emit_fn b.emit_fn
                            && (same_bytes a.stream_fn b.stream_fn
                                && same_bytes a.pkg_import b.pkg_import)))))))

abbrev pub insert_decl : Registry → CodecDecl → Option CodecDecl → Registered
insert_decl r c none = accepted (assign same_bytes c.name c r)
insert_decl r c (some existing) =
    if same_decl existing c then accepted r else rejected r duplicate_codec

abbrev pub checked_insert : Registry → CodecDecl → Option RegisterError → Registered
checked_insert r c (some e) = rejected r e
checked_insert r c none = insert_decl r c (find same_bytes r c.name)

-- Register
unfoldable pub register : Registry → CodecDecl → Registered
register r c = checked_insert r c (decl_error c)

-- Lookup
unfoldable pub lookup_codec : Registry → Text → Option CodecDecl
lookup_codec r name = find same_bytes r name

abbrev pub stop_at : Registered → Registered → Option RegisterError → Registered
stop_at one rest (some e) = one
stop_at one rest none = rest

-- A build registers its codecs one after the other; an error stops it.
unfoldable pub register_all : Registry → List CodecDecl → Registered
register_all r [] = accepted r
register_all r (c ∷ cs) =
    let one = register r c in stop_at one (register_all one.registry cs) one.error
