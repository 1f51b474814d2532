-- ===== src/Lib.antt =====
-- libpinyin turns typed pinyin or zhuyin into Chinese text. This library models the storage layer,
-- on which its tables and user data rest, and the way from the typed letters to the keys that the
-- tables are searched for, and proves them correct.
--
-- The parts and how they interact (paths from the root of the repository):
--   * src/include/memory_chunk.h, the growable byte buffer under every table, with the file format
--     that carries a check sum: MemoryChunk.antt, the operations under the names of the source;
--     MemoryChunk/File.antt, get_check_sum, save, load and mmap; MemoryChunk/Growth, Contents, Reads
--     and Gap say what the operations do to the bytes that a chunk holds.
--   * src/storage/flexible_single_gram.h, arrays of items sorted by token in a chunk, for any
--     header and item type: TokenArray.antt has the loops that FlexibleSingleGram and SingleGram
--     share, its children the sorted lists they implement; FlexibleSingleGram.antt has the class.
--     Stl.antt is the interface of std::lower_bound (src/include/stl_lite.h), with its documented
--     law.
--   * src/storage/ngram.cpp, the bigram counts of one token: SingleGram.antt, with mask_out and
--     merge_single_gram.
--   * src/storage/chewing_key.h and src/storage/pinyin_phrase3.h, the keys of syllables and their
--     orders: PinyinPhrase.antt.
--   * src/storage/pinyin_parser2.cpp, src/storage/pinyin_parser2.h and
--     src/storage/chewing_key.cpp, the parsers of pinyin: PinyinParser.antt has the options, the
--     search for a name and parse_one_key, PinyinParser/Full.antt the dynamic programme of
--     FullPinyinParser2::parse, PinyinParser/Double.antt DoublePinyinParser2 and
--     PinyinParser/Direct.antt PinyinDirectParser2, with PinyinParser/Words for what its words are.
--     PinyinParser/Reading says what a reading of an input is; Saving, Scan, Pieces, Positions, Turns, Best, Backtrace and Longest go through the
--     loops of parse; Sorted, Search, OneKey and Spelling through parse_one_key; Greedy and
--     DoubleKey through DoublePinyinParser2; Cover says where keys stand.
--   * src/storage/phonetic_key_matrix.h and src/storage/phonetic_key_matrix.cpp, the keys by the
--     position at which they begin: PhoneticKeyMatrix.antt has the matrix and fill_matrix,
--     PhoneticKeyMatrix/Steps.antt inner_split_step and fuzzy_syllable_step,
--     PhoneticKeyMatrix/Search.antt search_matrix. Halves and Divide say what inner_split_step adds. PhoneticKeyMatrix/Parsed puts the parser,
--     fill_matrix and search_matrix together.
--   * src/storage/phrase_index_logger.h, the log in which changes to an index are kept:
--     PhraseIndexLogger.antt, and PhraseIndexLogger/RoundTrip the loop that reads a log.
--     PhraseIndexLogger/Masked.antt has mask_out_phrase_index_logger of src/storage/phrase_index.cpp.
--   * src/storage/phrase_index.h and src/storage/phrase_index.cpp, the phrases with their
--     frequencies and pronunciations: PhraseItem.antt for one phrase, SubPhraseIndex.antt for one
--     library of phrases, SubPhraseIndex/Logs.antt for its diff and merge, FacadePhraseIndex.antt
--     and FacadePhraseIndex/Libraries.antt for the sixteen libraries together.
--   * Common.antt has the Boolean tests, the lists measured by native numbers, little-endian words
--     and exclusive or; Tests.antt has runs on small inputs.
-- An index stores its tables in chunks, logs its changes in a chunk, and each of these is saved to
-- a file or loaded from it as a chunk. What a parser answers is filled into a matrix, the steps add
-- keys to it, and a search takes the keys of every way through the columns to a phonetic table.
--
-- A step that may abort() or fail an assertion, or that touches memory outside of the bytes
-- allocated, gives an Option, and `none` is that failure; a result false of the source is a value.
-- A chunk that points into memory of another owner is a snapshot of its bytes. guint32 arithmetic
-- is modulo 2 ^ 32; sizes and offsets are numbers, below 2 ^ 31 in the source, and malloc succeeds.
-- std::lower_bound and the division of gfloat are parameters. The loops that read a log are bounded
-- by the size of the log, which is enough because a record takes eight bytes or more. The loops of
-- the parsers and of search_matrix are bounded by the length of the input or of the matrix: each
-- turn goes forward by a position or more, and the way back of FullPinyinParser2 goes backward. The
-- gint16 and guint16 of the parsers are cut to 16 bits as they are stored. std::equal_range, the
-- generated tables and the phonetic table are parameters.
--
-- Not modelled: the parsers of zhuyin (src/storage/zhuyin_parser2.cpp); of the matrix,
-- resplit_step, search_suggestion_with_matrix and compute_pronunciation_possibility; the large
-- tables and their databases, the search for sentences (src/lookup) and the programming interfaces
-- (src/pinyin.cpp, src/zhuyin.cpp); of FacadePhraseIndex, load_text and the arrays of ranges and
-- tokens. The tables that scripts generate are data, and the training tools are programs around the
-- library.
pub mod Common
pub mod MemoryChunk
pub mod Stl
pub mod TokenArray
pub mod SingleGram
pub mod FlexibleSingleGram
pub mod PinyinPhrase
pub mod PinyinParser
pub mod PhoneticKeyMatrix
pub mod PhraseIndexLogger
pub mod PhraseItem
pub mod SubPhraseIndex
pub mod FacadePhraseIndex
mod Tests
