-- ===== src/Codec/Crc/Catalogue.antt =====
-- fielddeck/analysis/crc.py: the catalogue of CRC models.
use field_deck.Prelude.{true, false, List, [], ◌∷◌}
use field_deck.Codec.Crc.{CrcModel}

abbrev pub crc8 : CrcModel
crc8 = record {
  name = "crc8";
  width = 8;
  poly = 0x7;
  init = 0x0;
  refin = false;
  refout = false;
  xorout = 0x0;
  check = 0xf4;
  aliases = "crc-8" ∷ "crc8-smbus" ∷ [];
}

abbrev pub crc8_maxim : CrcModel
crc8_maxim = record {
  name = "crc8-maxim";
  width = 8;
  poly = 0x31;
  init = 0x0;
  refin = true;
  refout = true;
  xorout = 0x0;
  check = 0xa1;
  aliases = "crc8-dallas" ∷ "crc8-1wire" ∷ [];
}

abbrev pub crc8_sae_j1850 : CrcModel
crc8_sae_j1850 = record {
  name = "crc8-sae-j1850";
  width = 8;
  poly = 0x1d;
  init = 0xff;
  refin = false;
  refout = false;
  xorout = 0xff;
  check = 0x4b;
  aliases = [];
}

abbrev pub crc8_autosar : CrcModel
crc8_autosar = record {
  name = "crc8-autosar";
  width = 8;
  poly = 0x2f;
  init = 0xff;
  refin = false;
  refout = false;
  xorout = 0xff;
  check = 0xdf;
  aliases = [];
}

abbrev pub crc16_modbus : CrcModel
crc16_modbus = record {
  name = "crc16-modbus";
  width = 16;
  poly = 0x8005;
  init = 0xffff;
  refin = true;
  refout = true;
  xorout = 0x0;
  check = 0x4b37;
  aliases = "modbus" ∷ "crc16-ibm" ∷ [];
}

abbrev pub crc16_ccitt_false : CrcModel
crc16_ccitt_false = record {
  name = "crc16-ccitt-false";
  width = 16;
  poly = 0x1021;
  init = 0xffff;
  refin = false;
  refout = false;
  xorout = 0x0;
  check = 0x29b1;
  aliases = "ccitt" ∷ [];
}

abbrev pub crc16_xmodem : CrcModel
crc16_xmodem = record {
  name = "crc16-xmodem";
  width = 16;
  poly = 0x1021;
  init = 0x0;
  refin = false;
  refout = false;
  xorout = 0x0;
  check = 0x31c3;
  aliases = "xmodem" ∷ [];
}

abbrev pub crc16_kermit : CrcModel
crc16_kermit = record {
  name = "crc16-kermit";
  width = 16;
  poly = 0x1021;
  init = 0x0;
  refin = true;
  refout = true;
  xorout = 0x0;
  check = 0x2189;
  aliases = "kermit" ∷ [];
}

abbrev pub crc16_arc : CrcModel
crc16_arc = record {
  name = "crc16-arc";
  width = 16;
  poly = 0x8005;
  init = 0x0;
  refin = true;
  refout = true;
  xorout = 0x0;
  check = 0xbb3d;
  aliases = "arc" ∷ [];
}

abbrev pub crc16_maxim : CrcModel
crc16_maxim = record {
  name = "crc16-maxim";
  width = 16;
  poly = 0x8005;
  init = 0x0;
  refin = true;
  refout = true;
  xorout = 0xffff;
  check = 0x44c2;
  aliases = [];
}

abbrev pub crc16_usb : CrcModel
crc16_usb = record {
  name = "crc16-usb";
  width = 16;
  poly = 0x8005;
  init = 0xffff;
  refin = true;
  refout = true;
  xorout = 0xffff;
  check = 0xb4c8;
  aliases = [];
}

abbrev pub crc16_dnp : CrcModel
crc16_dnp = record {
  name = "crc16-dnp";
  width = 16;
  poly = 0x3d65;
  init = 0x0;
  refin = true;
  refout = true;
  xorout = 0xffff;
  check = 0xea82;
  aliases = [];
}

abbrev pub crc16_mcrf4xx : CrcModel
crc16_mcrf4xx = record {
  name = "crc16-mcrf4xx";
  width = 16;
  poly = 0x1021;
  init = 0xffff;
  refin = true;
  refout = true;
  xorout = 0x0;
  check = 0x6f91;
  aliases = [];
}

abbrev pub crc32 : CrcModel
crc32 = record {
  name = "crc32";
  width = 32;
  poly = 0x4c11db7;
  init = 0xffffffff;
  refin = true;
  refout = true;
  xorout = 0xffffffff;
  check = 0xcbf43926;
  aliases = "crc32-ieee" ∷ "zip" ∷ [];
}

abbrev pub crc32c : CrcModel
crc32c = record {
  name = "crc32c";
  width = 32;
  poly = 0x1edc6f41;
  init = 0xffffffff;
  refin = true;
  refout = true;
  xorout = 0xffffffff;
  check = 0xe3069283;
  aliases = "castagnoli" ∷ [];
}

abbrev pub crc32_bzip2 : CrcModel
crc32_bzip2 = record {
  name = "crc32-bzip2";
  width = 32;
  poly = 0x4c11db7;
  init = 0xffffffff;
  refin = false;
  refout = false;
  xorout = 0xffffffff;
  check = 0xfc891918;
  aliases = [];
}

abbrev pub crc32_mpeg2 : CrcModel
crc32_mpeg2 = record {
  name = "crc32-mpeg2";
  width = 32;
  poly = 0x4c11db7;
  init = 0xffffffff;
  refin = false;
  refout = false;
  xorout = 0x0;
  check = 0x376e6e7;
  aliases = [];
}

abbrev pub crc16_t10_dif : CrcModel
crc16_t10_dif = record {
  name = "crc16-t10-dif";
  width = 16;
  poly = 0x8bb7;
  init = 0x0;
  refin = false;
  refout = false;
  xorout = 0x0;
  check = 0xd0db;
  aliases = [];
}

abbrev pub crc16_profibus : CrcModel
crc16_profibus = record {
  name = "crc16-profibus";
  width = 16;
  poly = 0x1dcf;
  init = 0xffff;
  refin = false;
  refout = false;
  xorout = 0xffff;
  check = 0xa819;
  aliases = [];
}

abbrev pub crc5_usb : CrcModel
crc5_usb = record {
  name = "crc5-usb";
  width = 5;
  poly = 0x5;
  init = 0x1f;
  refin = true;
  refout = true;
  xorout = 0x1f;
  check = 0x19;
  aliases = [];
}

-- CATALOGUE
abbrev pub catalogue : List CrcModel
catalogue =
    crc8 ∷ crc8_maxim ∷ crc8_sae_j1850 ∷ crc8_autosar ∷ crc16_modbus ∷ crc16_ccitt_false
    ∷ crc16_xmodem ∷ crc16_kermit ∷ crc16_arc ∷ crc16_maxim ∷ crc16_usb ∷ crc16_dnp ∷ crc16_mcrf4xx
    ∷ crc32 ∷ crc32c ∷ crc32_bzip2 ∷ crc32_mpeg2 ∷ crc16_t10_dif ∷ crc16_profibus ∷ crc5_usb ∷ []
