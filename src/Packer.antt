-- ===== src/Packer.antt =====
-- src/packer/: the class `Packer` and the factory. Node's `zlib`, `Buffer`, `JSON` and the library
-- js-yaml are parameters.
pub mod RoundTrip
use celeries.Base.Text.{Text}

-- The interfaces, over the data `D`; `B` stands for `Buffer`.
pub record Compressor (B : Type 0) : Type 0 where
  pub compress : B → B
  pub decompress : B → B

pub record Encoder (B : Type 0) : Type 0 where
  encode : B → Text
  decode : Text → B

pub record Serializer (D B : Type 0) : Type 0 where
  pub serialize : D → B
  pub deserialize : B → D

pub record Packer (D B : Type 0) : Type 0 where
  pub compressor : Compressor B
  pub encoder : Encoder B
  pub serializer : Serializer D B

pub data CompressorType : Type 0 where
  gzip identity zlib : CompressorType

pub data EncoderType : Type 0 where
  base64 plaintext : EncoderType

pub data SerializerType : Type 0 where
  json yaml : SerializerType

-- What the platform and js-yaml supply.
pub record Platform (D B : Type 0) : Type 0 where
  pub buffer_from : B → B
  pub gzip_sync : B → B
  pub deflate_sync : B → B
  pub unzip_sync : B → B
  pub to_utf8 : B → Text
  pub from_utf8 : Text → B
  pub to_base64 : B → Text
  pub from_base64 : Text → B
  pub json_stringify : D → Text
  pub json_parse : Text → D
  pub yaml_dump : D → Text
  pub yaml_load : Text → D

module _ {D B : Type 0} where
  unfoldable pub pack : Packer D B → D → Text
  pack p data_ =
      let serialized = p.serializer.serialize data_ in
      let compressed = p.compressor.compress serialized in p.encoder.encode compressed

  pub unpack : Packer D B → Text → D
  unpack p packed =
      let decoded = p.encoder.decode packed in
      let decompressed = p.compressor.decompress decoded in p.serializer.deserialize decompressed

module _ {D B : Type 0} (node : Platform D B) where
  create_identity_compressor : Compressor B
  create_identity_compressor = record { compress = node.buffer_from; decompress = node.buffer_from }

  create_gzip_compressor : Compressor B
  create_gzip_compressor = record { compress = node.gzip_sync; decompress = node.unzip_sync }

  create_zlib_compressor : Compressor B
  create_zlib_compressor = record { compress = node.deflate_sync; decompress = node.unzip_sync }

  create_plaintext_encoder : Encoder B
  create_plaintext_encoder = record { encode = node.to_utf8; decode = node.from_utf8 }

  create_base64_encoder : Encoder B
  create_base64_encoder = record { encode = node.to_base64; decode = node.from_base64 }

  create_json_serializer : Serializer D B
  create_json_serializer = record {
    serialize = λ d. node.from_utf8 (node.json_stringify d);
    deserialize = λ b. node.json_parse (node.to_utf8 b);
  }

  create_yaml_serializer : Serializer D B
  create_yaml_serializer = record {
    serialize = λ d. node.from_utf8 (node.yaml_dump d);
    deserialize = λ b. node.yaml_load (node.to_utf8 b);
  }

  unfoldable pub create_compressor : CompressorType → Compressor B
  unfolding create_gzip_compressor create_identity_compressor create_zlib_compressor
  create_compressor gzip = create_gzip_compressor
  create_compressor identity = create_identity_compressor
  create_compressor zlib = create_zlib_compressor

  unfoldable pub create_encoder : EncoderType → Encoder B
  unfolding create_base64_encoder create_plaintext_encoder
  create_encoder base64 = create_base64_encoder
  create_encoder plaintext = create_plaintext_encoder

  unfoldable pub create_serializer : SerializerType → Serializer D B
  unfolding create_json_serializer create_yaml_serializer
  create_serializer json = create_json_serializer
  create_serializer yaml = create_yaml_serializer

  unfoldable pub create_packer : SerializerType → CompressorType → EncoderType → Packer D B
  unfolding create_compressor create_encoder create_serializer
  create_packer serializer compressor encoder = record {
    compressor = create_compressor compressor;
    encoder = create_encoder encoder;
    serializer = create_serializer serializer;
  }

  create_default_packer : Packer D B
  create_default_packer = create_packer json identity base64
