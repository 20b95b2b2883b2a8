-- ===== src/Packer/RoundTrip.antt =====
-- Packing and unpacking.
use celeries.Base.{◌≡◌, refl, ap, ◌∙◌, true}
use celeries.Base.Text.{Text, is_well_formed}
use celeries.Packer.{
  Platform, SerializerType, json, yaml, CompressorType, gzip, identity, zlib, EncoderType, base64,
  plaintext, pack, unpack, create_packer, create_compressor, create_encoder, create_serializer,
}

-- The documented behaviour of the platform: each conversion reads back what its counterpart wrote;
-- UTF-8 does so for a well-formed text, without lone surrogates, and JSON and YAML write no other,
-- since they escape these. `D` is the data that JSON and YAML can write. Bytes need not be those of a
-- text.
pub record ReadsBack {D B : Type 0} (node : Platform D B) : Type 0 where
  pub copies : (b : B) → node.buffer_from b ≡ b
  pub unzips : (b : B) → node.unzip_sync (node.gzip_sync b) ≡ b
  pub inflates : (b : B) → node.unzip_sync (node.deflate_sync b) ≡ b
  pub base64s : (b : B) → node.from_base64 (node.to_base64 b) ≡ b
  pub utf8s : (s : Text) → is_well_formed s ≡ true → node.to_utf8 (node.from_utf8 s) ≡ s
  pub json_texts : (d : D) → is_well_formed (node.json_stringify d) ≡ true
  pub yaml_texts : (d : D) → is_well_formed (node.yaml_dump d) ≡ true
  pub jsons : (d : D) → node.json_parse (node.json_stringify d) ≡ d
  pub yamls : (d : D) → node.yaml_load (node.yaml_dump d) ≡ d

-- Plain text carries what has not been compressed only.
abbrev Fits : CompressorType → EncoderType → Type 0
Fits c base64 = Unit {0}
Fits identity plaintext = Unit {0}
Fits _ plaintext = ⊥

module _ {D B : Type 0} (node : Platform D B) (reads : ReadsBack node) where
  decompresses :
      (c : CompressorType) (b : B)
      → (create_compressor node c).decompress ((create_compressor node c).compress b) ≡ b
  unfolding create_compressor
  decompresses gzip b = reads.unzips b
  decompresses identity b = ap node.buffer_from (reads.copies b) ∙ reads.copies b
  decompresses zlib b = reads.inflates b

  -- The buffers that a serializer makes are those of a text.
  pub serialized :
      (s : SerializerType) (d : D)
      → (t : Text) × (is_well_formed t ≡ true)
        × ((create_serializer node s).serialize d ≡ node.from_utf8 t)
        × ((create_serializer node s).deserialize (node.from_utf8 t) ≡ d)
  unfolding create_serializer
  serialized json d = (
    node.json_stringify d,
    reads.json_texts d,
    refl,
    ap node.json_parse (reads.utf8s (node.json_stringify d) (reads.json_texts d)) ∙ reads.jsons d,
  )
  serialized yaml d = (
    node.yaml_dump d,
    reads.yaml_texts d,
    refl,
    ap node.yaml_load (reads.utf8s (node.yaml_dump d) (reads.yaml_texts d)) ∙ reads.yamls d,
  )

  -- On a platform that reads back what it writes, where UTF-8 need only read back texts whose
  -- surrogates are paired and the texts of JSON and YAML are such, a packer of the factory unpacks
  -- what it has packed, for every serializer, compressor and encoder but plain text for compressed
  -- data.
  pub unpack-pack :
      (s : SerializerType) (c : CompressorType) (e : EncoderType) (d : D)
      → Fits c e
      → unpack (create_packer node s c e) (pack (create_packer node s c e) d) ≡ d
  unfolding unpack pack create_packer create_encoder create_compressor
  unpack-pack s c base64 d fits =
      let (t, formed, is, back) = serialized s d in
      let read = (create_serializer node s).deserialize in
      let wrote = (create_serializer node s).serialize d in
      ap (λ b. read ((create_compressor node c).decompress b))
        (reads.base64s ((create_compressor node c).compress wrote))
      ∙ ap read (decompresses c wrote ∙ is)
      ∙ back
  unpack-pack s identity plaintext d fits =
      let (t, formed, is, back) = serialized s d in
      let read = (create_serializer node s).deserialize in
      let sent : node.to_utf8 (node.buffer_from ((create_serializer node s).serialize d)) ≡ t =
        ap (λ b. node.to_utf8 (node.buffer_from b)) is
        ∙ ap node.to_utf8 (reads.copies (node.from_utf8 t))
        ∙ reads.utf8s t formed in
      ap (λ x. read (node.buffer_from (node.from_utf8 x))) sent
      ∙ ap read (reads.copies (node.from_utf8 t))
      ∙ back
  unpack-pack s gzip plaintext d fits = elim fits [ ]
  unpack-pack s zlib plaintext d fits = elim fits [ ]
