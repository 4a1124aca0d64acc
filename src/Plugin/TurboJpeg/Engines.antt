-- ===== src/Plugin/TurboJpeg/Engines.antt =====
-- What REGISTER_ENGINE of pression/compressor/compressorTurboJPEG.cpp registers.
use pression.Base.{
  ℕ, Bool, true, false, ◌&&◌, ◌||◌, ◌==◌, ltb, ◌≡◌, arith, if◌then◌else◌, List, [], ◌∷◌, ◌|||◌,
}
use pression.Plugin.Dims.{data_2d_flag, ignore_alpha_flag}
use pression.Plugin.TurboJpeg.{settings_of}
use pression.Plugin.TurboJpeg.Names

-- `EqCompressorInfo`, with quality, ratio and speed in hundredths.
pub record Info : Type 0 where
  pub version : ℕ
  pub capabilities : ℕ
  pub quality : ℕ
  pub ratio : ℕ
  pub speed : ℕ
  pub name : ℕ
  pub token_type : ℕ
  pub output_token_type : ℕ
  pub output_token_size : ℕ

-- The arguments of REGISTER_ENGINE.
pub record Engine : Type 0 where
  pub token : ℕ
  pub name : ℕ
  pub quality : ℕ
  pub ratio : ℕ
  pub speed : ℕ
  pub alpha : Bool

-- `EQ_COMPRESSOR_DATATYPE_INVALID`.
abbrev pub invalid_token : ℕ
invalid_token = 0xeffffffe

-- The function `_getInfoTurbo...`, for the info that it is given, with the version of the caller.
unfoldable pub get_info : Engine → Info → Info
get_info engine info = record info {
  version = 4;
  capabilities = if engine.alpha then data_2d_flag ||| ignore_alpha_flag else data_2d_flag;
  quality = engine.quality;
  ratio = engine.ratio;
  speed = engine.speed;
  name = engine.name;
  token_type = if not_known then invalid_token else engine.token;
  output_token_type = if has_output then engine.token else info.output_token_type;
  output_token_size = if has_output then 3 else info.output_token_size;
}
  where
    not_known : Bool
    not_known = if engine.alpha then false else ltb info.version 3

    has_output : Bool
    has_output = engine.alpha && ltb 2 info.version

unfoldable pub jpeg_engine : ℕ → ℕ → ℕ → ℕ → ℕ → Bool → Engine
jpeg_engine token name quality ratio speed alpha = record {
  token = token;
  name = name;
  quality = quality;
  ratio = ratio;
  speed = speed;
  alpha = alpha;
}

-- The engines, in the order of the file.
unfoldable pub jpeg_engines : List Engine
unfolding jpeg_engine
jpeg_engines =
    jpeg_engine 0x1908 Names.rgba100 95 33 34 true
    ∷ jpeg_engine 0x401 Names.bgra100 95 33 34 true
    ∷ jpeg_engine 0x1908 Names.rgba90 90 9 65 true
    ∷ jpeg_engine 0x401 Names.bgra90 90 9 65 true
    ∷ jpeg_engine 0x1908 Names.rgba80 80 7 75 true
    ∷ jpeg_engine 0x401 Names.bgra80 80 7 75 true
    ∷ jpeg_engine 0x1907 Names.rgb100 95 30 120 false
    ∷ jpeg_engine 0x1907 Names.rgb90 90 30 120 false
    ∷ jpeg_engine 0x1907 Names.rgb80 80 30 120 false
    ∷ jpeg_engine 0x400 Names.bgr100 95 30 120 false
    ∷ jpeg_engine 0x400 Names.bgr90 90 30 120 false
    ∷ jpeg_engine 0x400 Names.bgr80 80 30 120 false
    ∷ []

-- Every engine is set up for its token: reversed channels for BGR and BGRA, and four bytes with alpha, three
-- without.
abbrev pub AreSetUp : List Engine → Type 0
AreSetUp [] = Unit {0}
AreSetUp (engine ∷ engines) =
    ((settings_of engine.name).reversed ≡ (engine.token == 0x401 || engine.token == 0x400))
    × ((settings_of engine.name).token_size ≡ (if engine.alpha then 4 else 3))
    × AreSetUp engines

pub jpeg_engines-AreSetUp : AreSetUp jpeg_engines
unfolding jpeg_engines settings_of
jpeg_engines-AreSetUp = ground arith
