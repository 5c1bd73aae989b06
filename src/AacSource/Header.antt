-- ===== src/AacSource/Header.antt =====
-- `parseAdtsHeader` against the layout of the seven header bytes.
use Prim.Native.Nat.{bit_and, bit_or}
use zrh_rtsp_server.Prelude.{
  ℕ, ◌+◌, ◌*◌, ◌/◌, ◌%◌, ◌<◌, ◌≡◌, ◌∙◌, true, some, List, [], ◌∷◌, ◌++◌, ◌==◌, arith, eq→==,
}
use zrh_rtsp_server.Bits.{
  bit_and_f0, bit_and_08, bit_and_06, bit_and_01, bit_and_c0, bit_and_3c, bit_and_02, bit_and_20,
  bit_and_10, bit_and_03, bit_and_ff, bit_and_e0, bit_and_1f, bit_and_fc, bit_or_channel,
  bit_or_fullness, bit_or_length,
}
use zrh_rtsp_server.AacSource.{AdtsHeader, fields, parse_adts_header}

-- Each field within its bits, and the sync word all ones, as the header file has it.
pub record IsAdts (h : AdtsHeader) : Type 0 where
  pub syncword_ones : h.syncword ≡ 0xfff
  pub id_bits : h.id < 2
  pub layer_bits : h.layer < 4
  pub protection_bits : h.protection_absent < 2
  pub profile_bits : h.profile < 4
  pub sampling_bits : h.sampling_freq_index < 16
  pub private_bits : h.private_bit < 2
  pub channel_bits : h.channel_cfg < 8
  pub original_bits : h.original_copy < 2
  pub home_bits : h.home < 2
  pub copyright_bits : h.copyright_identification_bit < 2
  pub start_bits : h.copyright_identification_start < 2
  pub length_bits : h.aac_frame_length < 8192
  pub fullness_bits : h.adts_buffer_fullness < 2048
  pub blocks_bits : h.number_of_raw_data_block_in_frame < 4

-- The bytes of a header: the fields in the order of the record, the sync word first.
abbrev pub byte0 : AdtsHeader → ℕ
byte0 h = h.syncword / 16

abbrev pub byte1 : AdtsHeader → ℕ
byte1 h = h.syncword % 16 * 16 + h.id * 8 + h.layer * 2 + h.protection_absent

abbrev pub byte2 : AdtsHeader → ℕ
byte2 h = h.profile * 64 + h.sampling_freq_index * 4 + h.private_bit * 2 + h.channel_cfg / 4

abbrev pub byte3 : AdtsHeader → ℕ
byte3 h =
    h.channel_cfg % 4 * 64
    + h.original_copy * 32
    + h.home * 16
    + h.copyright_identification_bit * 8
    + h.copyright_identification_start * 4
    + h.aac_frame_length / 2048

abbrev pub byte4 : AdtsHeader → ℕ
byte4 h = h.aac_frame_length / 8 % 256

abbrev pub byte5 : AdtsHeader → ℕ
byte5 h = h.aac_frame_length % 8 * 32 + h.adts_buffer_fullness / 64

abbrev pub byte6 : AdtsHeader → ℕ
byte6 h = h.adts_buffer_fullness % 64 * 4 + h.number_of_raw_data_block_in_frame

abbrev pub adts_bytes : AdtsHeader → List ℕ
adts_bytes h = byte0 h ∷ byte1 h ∷ byte2 h ∷ byte3 h ∷ byte4 h ∷ byte5 h ∷ byte6 h ∷ []

-- What the code stores of a header: no sync word, and bit 11 of the length in place of the copyright
-- start bit.
abbrev pub stored : AdtsHeader → AdtsHeader
stored h = record h { syncword = 0; copyright_identification_start = h.aac_frame_length / 2048 % 2 }

module _ (h : AdtsHeader) (v : IsAdts h) where
  byte1-lt : byte1 h < 256
  byte1-lt = omega arith

  byte2-lt : byte2 h < 256
  byte2-lt = omega arith

  byte3-lt : byte3 h < 256
  byte3-lt = omega arith

  byte4-lt : byte4 h < 256
  byte4-lt = omega arith

  byte5-lt : byte5 h < 256
  byte5-lt = omega arith

  byte6-lt : byte6 h < 256
  byte6-lt = omega arith

  field-id : bit_and (byte1 h) 0x08 / 8 ≡ h.id
  field-id = omega (arith, bit_and_08 (byte1 h) byte1-lt)

  field-layer : bit_and (byte1 h) 0x06 / 2 ≡ h.layer
  field-layer = omega (arith, bit_and_06 (byte1 h) byte1-lt)

  field-protection_absent : bit_and (byte1 h) 0x01 ≡ h.protection_absent
  field-protection_absent = omega (arith, bit_and_01 (byte1 h) byte1-lt)

  field-profile : bit_and (byte2 h) 0xc0 / 64 ≡ h.profile
  field-profile = omega (arith, bit_and_c0 (byte2 h) byte2-lt)

  field-sampling_freq_index : bit_and (byte2 h) 0x3c / 4 ≡ h.sampling_freq_index
  field-sampling_freq_index = omega (arith, bit_and_3c (byte2 h) byte2-lt)

  field-private_bit : bit_and (byte2 h) 0x02 / 2 ≡ h.private_bit
  field-private_bit = omega (arith, bit_and_02 (byte2 h) byte2-lt)

  field-original_copy : bit_and (byte3 h) 0x20 / 32 ≡ h.original_copy
  field-original_copy = omega (arith, bit_and_20 (byte3 h) byte3-lt)

  field-home : bit_and (byte3 h) 0x10 / 16 ≡ h.home
  field-home = omega (arith, bit_and_10 (byte3 h) byte3-lt)

  field-copyright_identification_bit : bit_and (byte3 h) 0x08 / 8 ≡ h.copyright_identification_bit
  field-copyright_identification_bit = omega (arith, bit_and_08 (byte3 h) byte3-lt)

  field-number_of_raw_data_block_in_frame :
      bit_and (byte6 h) 0x03 ≡ h.number_of_raw_data_block_in_frame
  field-number_of_raw_data_block_in_frame = omega (arith, bit_and_03 (byte6 h) byte6-lt)

  field-channel_cfg :
      bit_or (bit_and (byte2 h) 0x01 * 4) (bit_and (byte3 h) 0xc0 / 64) ≡ h.channel_cfg
  field-channel_cfg =
      bit_or_channel (bit_and (byte2 h) 0x01) (bit_and (byte3 h) 0xc0 / 64) (omega (arith, low))
        (omega (arith, high))
      ∙ omega (arith, low, high)
    where
      low : bit_and (byte2 h) 0x01 ≡ byte2 h % 2
      low = bit_and_01 (byte2 h) byte2-lt

      high : bit_and (byte3 h) 0xc0 ≡ byte3 h / 64 * 64
      high = bit_and_c0 (byte3 h) byte3-lt

  field-start : bit_and (byte3 h) 1 ≡ h.aac_frame_length / 2048 % 2
  field-start = omega (arith, bit_and_01 (byte3 h) byte3-lt)

  field-aac_frame_length :
      bit_or
        (bit_or (bit_and (byte3 h) 0x03 * 2048) (bit_and (byte4 h) 0xff * 8))
        (bit_and (byte5 h) 0xe0 / 32)
      ≡ h.aac_frame_length
  field-aac_frame_length =
      bit_or_length (bit_and (byte3 h) 0x03) (bit_and (byte4 h) 0xff) (bit_and (byte5 h) 0xe0 / 32)
        (omega (arith, high)) (omega (arith, middle, byte4-lt)) (omega (arith, low, byte5-lt))
      ∙ omega (arith, high, middle, low)
    where
      high : bit_and (byte3 h) 0x03 ≡ byte3 h % 4
      high = bit_and_03 (byte3 h) byte3-lt

      middle : bit_and (byte4 h) 0xff ≡ byte4 h
      middle = bit_and_ff (byte4 h) byte4-lt

      low : bit_and (byte5 h) 0xe0 ≡ byte5 h / 32 * 32
      low = bit_and_e0 (byte5 h) byte5-lt

  field-adts_buffer_fullness :
      bit_or (bit_and (byte5 h) 0x1f * 64) (bit_and (byte6 h) 0xfc / 4) ≡ h.adts_buffer_fullness
  field-adts_buffer_fullness =
      bit_or_fullness (bit_and (byte5 h) 0x1f) (bit_and (byte6 h) 0xfc / 4) (omega (arith, high))
        (omega (arith, low, byte6-lt))
      ∙ omega (arith, high, low)
    where
      high : bit_and (byte5 h) 0x1f ≡ byte5 h % 32
      high = bit_and_1f (byte5 h) byte5-lt

      low : bit_and (byte6 h) 0xfc ≡ byte6 h / 4 * 4
      low = bit_and_fc (byte6 h) byte6-lt

  fields-adts : fields (byte1 h) (byte2 h) (byte3 h) (byte4 h) (byte5 h) (byte6 h) ≡ stored h
  unfolding fields
  fields-adts = λ i. record {
    syncword = 0;
    id = field-id i;
    layer = field-layer i;
    protection_absent = field-protection_absent i;
    profile = field-profile i;
    sampling_freq_index = field-sampling_freq_index i;
    private_bit = field-private_bit i;
    channel_cfg = field-channel_cfg i;
    original_copy = field-original_copy i;
    home = field-home i;
    copyright_identification_bit = field-copyright_identification_bit i;
    copyright_identification_start = field-start i;
    aac_frame_length = field-aac_frame_length i;
    adts_buffer_fullness = field-adts_buffer_fullness i;
    number_of_raw_data_block_in_frame = field-number_of_raw_data_block_in_frame i;
  }

  -- Parsing the bytes of a header, whose sync word is twelve ones and whose other fields are within their
  -- bits, succeeds, whatever follows, and gives back each field but two: the sync word, which the parser
  -- leaves 0, and the copyright start bit, in whose place it puts bit 11 of the frame length.
  pub parse_adts_header-bytes :
      (rest : List ℕ) → parse_adts_header (adts_bytes h ++ rest) ≡ some (0, stored h)
  unfolding parse_adts_header
  parse_adts_header-bytes rest =
      let first : (byte0 h == 0xff) ≡ true = eq→== _ _ (omega arith) in
      let sync : (bit_and (byte1 h) 0xf0 == 0xf0) ≡ true =
        eq→== _ _ (omega (arith, bit_and_f0 (byte1 h) byte1-lt)) in
      rw (first, sync) (λ i. some (0, fields-adts i))
