-- ===== src/Tests/Codecs.antt =====
-- A build that registers a codec twice and one without a decoder.
use gsbm.Common.{List, [], ◌∷◌, codes}
use gsbm.Codecs.{CodecDecl, register_all}
use gsbm.Codecs.Sound.{IsSound, register_all-IsSound}

abbrev money : CodecDecl
money = record {
  name = codes "Money";
  go_type = codes "money.Money";
  wire_type = codes "length-delim";
  encode_fn = codes "Encode";
  decode_fn = codes "Decode";
  size_fn = codes "Size";
  emit_fn = [];
  stream_fn = [];
  pkg_import = [];
}

abbrev wanted : List CodecDecl
wanted = money ∷ money ∷ record money { decode_fn = [] } ∷ []

register_all-IsSound_example : IsSound (register_all [] wanted).registry
register_all-IsSound_example = register_all-IsSound wanted
