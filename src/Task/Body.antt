-- ===== src/Task/Body.antt =====
-- What a worker reads in a published message.
use celeries.Base.{◌≡◌, refl, sym, ap, ◌∙◌, Option, none, some, [], ◌∷◌}
use celeries.Base.Text.{Text}
use celeries.Messages.{ContentTypeMime, ContentEncodingMime, CompressionMime, TaskMessage}
use celeries.Packer.{
  pack, Platform, CompressorType, gzip, identity, zlib, SerializerType, json, yaml, create_packer,
  create_compressor, create_encoder, create_serializer,
}
use celeries.Packer.RoundTrip.{ReadsBack, serialized}
use celeries.Task.{
  Task, TaskApplyOptions, Host, default, publish_options, create_headers, select_encoder,
  real_compressor, get_encoding_mime, get_content_type_mime,
}

-- The compression that a worker has to know.
abbrev named : CompressorType → Option CompressionMime
named identity = none
named _ = some CompressionMime.zlib

-- `inflate` is what the worker decompresses zlib data by; it need not read data of another format.
module _ {D B : Type 0} (node : Platform D B) (inflate : B → B) where
  -- A worker decodes the body as the properties say, decompresses it if the headers name a
  -- compression, and reads it as the content type says.
  abbrev pub decoded : ContentEncodingMime → Text → B
  decoded ContentEncodingMime.utf8 body = node.from_utf8 body
  decoded ContentEncodingMime.base64 body = node.from_base64 body

  abbrev pub decompressed : Option CompressionMime → B → B
  decompressed none b = b
  decompressed (some CompressionMime.zlib) b = inflate b

  abbrev deserialized : ContentTypeMime → B → D
  deserialized ContentTypeMime.json b = node.json_parse (node.to_utf8 b)
  deserialized ContentTypeMime.yaml b = node.yaml_load (node.to_utf8 b)

  abbrev pub read_message : TaskMessage → D
  read_message m =
      deserialized m.content_type
        (decompressed m.headers.compression (decoded m.properties.body_encoding m.body))

  deserialized-serializer :
      (s : SerializerType) (b : B)
      → deserialized (get_content_type_mime s) b ≡ (create_serializer node s).deserialize b
  unfolding get_content_type_mime create_serializer
  deserialized-serializer json b = refl
  deserialized-serializer yaml b = refl

  abbrev packed : SerializerType → CompressorType → D → Text
  packed s c d = pack (create_packer node s (real_compressor c) (select_encoder c)) d

  module _ (back : ReadsBack node) (inflates : (b : B) → inflate (node.deflate_sync b) ≡ b) where
    -- What stands behind the worker's decoding and decompression is the serialized payload.
    unpacked :
        (s : SerializerType) (c : CompressorType) (d : D)
        → decompressed (named c) (decoded (get_encoding_mime (select_encoder c)) (packed s c d))
          ≡ (create_serializer node s).serialize d
    unfolding select_encoder get_encoding_mime real_compressor create_packer create_compressor
        create_encoder pack
    unpacked s gzip d =
        ap inflate (back.base64s (node.deflate_sync ((create_serializer node s).serialize d)))
        ∙ inflates ((create_serializer node s).serialize d)
    unpacked s zlib d =
        ap inflate (back.base64s (node.deflate_sync ((create_serializer node s).serialize d)))
        ∙ inflates ((create_serializer node s).serialize d)
    unpacked s identity d =
        let (t, formed, is, _) = serialized node back s d in
        let sent : node.to_utf8 (node.buffer_from ((create_serializer node s).serialize d)) ≡ t =
          ap (λ b. node.to_utf8 (node.buffer_from b)) is
          ∙ ap node.to_utf8 (back.copies (node.from_utf8 t))
          ∙ back.utf8s t formed in
        ap node.from_utf8 sent ∙ sym is

    reads-packed :
        (s : SerializerType) (c : CompressorType) (d : D)
        → deserialized
            (get_content_type_mime s)
            (decompressed (named c) (decoded (get_encoding_mime (select_encoder c)) (packed s c d)))
          ≡ d
    reads-packed s c d =
        let (t, _, is, reads) = serialized node back s d in
        ap (deserialized (get_content_type_mime s)) (unpacked s c d)
        ∙ deserialized-serializer s ((create_serializer node s).serialize d)
        ∙ ap (create_serializer node s).deserialize is
        ∙ reads

compression-create_headers :
    {D B BE BR : Type 0} (host : Host D B) (task : Task BE BR) (args kwargs : D)
    (c : CompressorType) (eta expires : Option Text) (id : Text)
    → (create_headers host task args kwargs c eta expires id).compression ≡ named c
unfolding create_headers
compression-create_headers host task args kwargs gzip eta expires id = refl
compression-create_headers host task args kwargs identity eta expires id = refl
compression-create_headers host task args kwargs zlib eta expires id = refl

module _ {D B BE BR : Type 0} (host : Host D B) (inflate : B → B) (back : ReadsBack host.platform)
    (inflates : (b : B) → inflate (host.platform.deflate_sync b) ≡ b) where
  -- On a platform that reads back what it writes, and with a worker that decompresses zlib data, a
  -- worker that goes by the message's own encoding, compression and content type reads the arguments
  -- of the call in it, whatever serializer and compression the caller chose.
  pub read_message-publish_options :
      (task : Task BE BR) (options : TaskApplyOptions D) (id : Text)
      → read_message host.platform inflate (publish_options host task options id)
        ≡ host.array (options.args ∷ options.kwargs ∷ host.embed ∷ [])
  unfolding publish_options create_headers
  read_message-publish_options task options id =
      let s = default json options.serializer in
      let c = default identity options.compression in
      let payload = host.array (options.args ∷ options.kwargs ∷ host.embed ∷ []) in
      ap
        (λ m. deserialized host.platform inflate (get_content_type_mime s) (
          decompressed host.platform inflate m (
            decoded host.platform inflate (get_encoding_mime (select_encoder c))
              (packed host.platform inflate s c payload))))
        (compression-create_headers host task options.args options.kwargs c options.eta
          options.expires id)
      ∙ reads-packed host.platform inflate back inflates s c payload
