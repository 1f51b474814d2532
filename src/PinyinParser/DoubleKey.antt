-- ===== src/PinyinParser/DoubleKey.antt =====
-- DoublePinyinParser2::parse_one_key of src/storage/pinyin_parser2.cpp fails no assertion.
use libpinyin.Common.{◌≡◌, Option, some, List, length}
use libpinyin.PinyinPhrase.{ChewingKey}
use libpinyin.PinyinParser.{Tables, PinyinIndexItem}
use libpinyin.PinyinParser.Sorted.{IsTables}
use libpinyin.PinyinParser.Double.{Scheme}

-- The tables of a scheme have an entry for each letter and for the semicolon.
pub record IsScheme (scheme : Scheme) : Type 0 where
  pub shengmu_size : length scheme.shengmu_table ≡ 27
  pub yunmu_size : length scheme.yunmu_table ≡ 27

module _ (tables : Tables) (index : List PinyinIndexItem) (law : IsTables tables index)
    (scheme : Scheme) (sized : IsScheme scheme) where
  IsAnswered : Option (Option ChewingKey) → Type 0
  IsAnswered o = (answer : Option ChewingKey) × (o ≡ some answer)
