-- ===== src/Lib.antt =====
-- Pression: image and data compressors.
--
-- The program has three parts. The image compressors in pression/compressor are a plugin: each class
-- splits the pixels of an image into components, which it may reorder bit by bit, divides the image
-- into chunks, and run-length codes each component of a chunk by itself. The data compressors in
-- pression/data divide bytes into chunks and give each chunk to a codec; one codec is the same
-- run-length coding, over words of up to eight bytes. The host library in pression loads plugins.
--
-- Which file models which code:
-- - Rle: one channel of pression/compressor/compressorRLE.ipp: `_write`, `_compressToken`, `READ`.
--   A channel's variables are the records Channel and Reader; what is stored is a list.
-- - Plugin/Chunk: the inner `_compress` and the body of `_decompress`, over four channels at once.
-- - Plugin/Codec: `_setupResults`, the outer `_compress` and `_decompress`. The members `_results` and
--   `_nResults` are the record Results. The record Build has the number of processors and the size of the memory of
--   a result; storing more than fits is `none`. Chunks are processed in order.
--   Plugin/Codec/Order executes the rounds of `_decompress` in any order, as OpenMP does; they are not interleaved.
-- - Plugin/Swizzle: the swizzle classes of compressorRLE4B.cpp, compressorRLEYUV.cpp,
--   compressorRLE565.cpp, compressorRLE10A2.cpp and compressorRLE4HF.cpp.
-- - Plugin/Engine, Plugin/Class, Plugin/Dims: `compress` and `decompress` of their classes, and
--   `Compressor::compress` of pression/compressor/compressor.cpp.
-- - Plugin/Engines: what REGISTER_ENGINE registers. Plugin/Api: the C interface of
--   pression/compressor/compressor.cpp; pointers to compressors are positions in a store.
-- - Plugin/TurboJpeg: compressorTurboJPEG.cpp and compressorTurboJPEG.h, over the JPEG library as a parameter.
-- - Data/Word, Data/Rle: pression/data/CompressorRLE.cpp and CompressorRLE.h, on little-endian words.
-- - Data/Compressor: pression/data/Compressor.cpp and Compressor.h. The virtual methods are the record
--   Codec; IsLossless in Data/Compressor/Parts is what they promise, and Data/Rle/RoundTrip fills it;
--   AreStored says that their results fit the memory that `reserve` leaves them. IsLosslessOn is both for some
--   sizes of chunks, and Data/Wrappers/Lossless fills it.
-- - Data/Wrappers: pression/data/CompressorLZF.cpp, CompressorFastLZ.cpp, CompressorSnappy.cpp and
--   CompressorZSTD.cpp, over the functions of the libraries as parameters.
-- - Data/Registry: pression/data/Registry.cpp, Registry.h and CompressorInfo.h.
-- - Host/Plugins, Host/Loader: pression/plugin.cpp: the infos of a plugin and its traversal, and how a plugin
--   is made from a dynamic library. Host/Registry, Host/Search: pression/pluginRegistry.cpp: loading a file,
--   traversal and searches, and how the constructor looks for plugins.
-- - Host/Instance: pression/pluginInstance.h, the state that the four classes below share; its ledger notes
--   which objects plugins allocated and deleted. Host/Compressor, Host/Decompressor, Host/Uploader,
--   Host/Downloader: pression/compressor.cpp, decompressor.cpp (with compressorResult.h), uploader.cpp and
--   downloader.cpp.
-- - Host/RoundTrip composes the host's compressor and decompressor with the plugin: the host takes the entry
--   points of plugins as an interface, the record Entries, which Plugin/Api fills. Host/Chosen starts with the
--   plugin as the host's loader reads it, and with the choice of a compressor. Host/Transfers is about the
--   downloaders and uploaders that are offered the plugin of this repository. Data/Registry/RoundTrip composes
--   the registry of the data compressors with what they compress.
-- - Base/Best, Host/Order, Host/Found, Host/Ownership: what the searches for the best info share, what they
--   ask of comparisons and of names, and what the holders of objects share.
-- - Base: numbers, lists, bits and buffers. Base/Linear proves that two ways to move the bits of a word
--   agree from their values at the single bits. Tests: runs and examples.
--
-- Machine integers are natural numbers with the wrap-around written out. An access outside of a buffer
-- is `none`, or `fault`. Loops are recursion on the number of rounds or on the list. The loop over the
-- search path takes fuel, one more than the text is long; each round shortens the text.
--
-- Single-precision arithmetic is a parameter: Plugin/Float names the operations that divide an image, and
-- IsExact what they give for a serial build; Data/Registry names those of the ratings. Plugin/Float/Binary is
-- the arithmetic of IEEE 754 for numbers that are not negative, from the rounding in Plugin/Float/Round, whose
-- fuel is the 253 exponents; numbers above the largest, which the program's counts do not reach, are left out.
-- Plugin/Codec/Borders, Plugin/Class/Divided and Plugin/Class/Even are about images that it divides. The macros
-- `LB_BITn` of lunchbox are the n-th bit, and its buffers are the bytes that they hold. `numeric_limits`
-- of a type is a parameter of Rle. `PRESSION_USE_OPENMP` is a parameter wherever it is tested.
--
-- `reserve` of a buffer of lunchbox leaves memory of a size that is a parameter, from what is reserved and what
-- the buffer held; Reserves in Plugin/Codec/Stored says that it is not less than what is reserved, as lunchbox
-- documents. Sizes whose double does not fit 64 bits are left out where a bound on a result is computed.
--
-- Assertions are taken to be off, and logging is left out. `getcwd` is taken to succeed.
--
-- Not modelled: LZF, FastLZ, Snappy and ZSTD themselves, which are other projects; the JPEG library, the
-- file system, dynamic libraries, OpenGL and the macro LBDONTCALL of lunchbox, which are parameters; and the
-- performance test.
pub mod Base
pub mod Rle
pub mod Plugin
pub mod Data
pub mod Host
mod Tests
