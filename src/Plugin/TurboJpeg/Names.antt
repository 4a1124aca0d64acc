-- ===== src/Plugin/TurboJpeg/Names.antt =====
-- The names of the engines, `EQ_COMPRESSOR_CH_EYESCALE_JPEG_*` of pression/plugins/compressorTypes.h.
use pression.Base.{ℕ}

abbrev pub rgba100 : ℕ
rgba100 = 0x200000

abbrev pub rgba90 : ℕ
rgba90 = 0x200001

abbrev pub rgba80 : ℕ
rgba80 = 0x200002

abbrev pub bgra100 : ℕ
bgra100 = 0x200003

abbrev pub bgra90 : ℕ
bgra90 = 0x200004

abbrev pub bgra80 : ℕ
bgra80 = 0x200005

abbrev pub rgb100 : ℕ
rgb100 = 0x200006

abbrev pub rgb90 : ℕ
rgb90 = 0x200007

abbrev pub rgb80 : ℕ
rgb80 = 0x200008

abbrev pub bgr100 : ℕ
bgr100 = 0x200009

abbrev pub bgr90 : ℕ
bgr90 = 0x20000a

abbrev pub bgr80 : ℕ
bgr80 = 0x20000b
