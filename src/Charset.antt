-- ===== src/Charset.antt =====
-- charset.go: the charsets of a terminal. `lower` is `strings.ToLower`; `iana` is the index of the
-- golang.org/x/text package, and a coding stands for the transformers of that package.
pub mod Decode
pub mod Fallback
mod Tests
use telnet.Prelude.{
  Bool, true, false, not, ◌||◌, Option, none, some, [], ◌∷◌, if◌then◌else◌, Bytes, same_bytes, text,
}

-- What `IANA.Encoding` and `IANA.Name` say of a code page.
pub data IanaEncoding : Type 0 where
  invalid unsupported unnamed : IanaEncoding
  named : Bytes → IanaEncoding

-- The encoder and the decoder.
pub data Coding : Type 0 where
  replacement cp437_full : Coding
  -- Text is encoded in the code page, and decoded as it is.
  ascii : Bytes → Coding
  page : Bytes → Coding

pub record CurrentCharset : Type 0 where
  pub name : Bytes
  pub coding : Coding

pub record Charset : Type 0 where
  pub usage_always : Bool
  pub binary_encode : Bool
  pub binary_decode : Bool
  pub default_charset : CurrentCharset
  pub negotiated_encoding : CurrentCharset
  pub negotiated_decoding : CurrentCharset
  pub fallback : Option CurrentCharset

unfoldable pub set_binary_encode : Bool → Charset → Charset
set_binary_encode encode c = record c { binary_encode = encode }

unfoldable pub set_binary_decode : Bool → Charset → Charset
set_binary_decode decode c = record c { binary_decode = decode }

-- The pointers are never nil once the charset is made.
unfoldable pub load_encoding_charset : Charset → CurrentCharset
load_encoding_charset c =
    if c.usage_always || c.binary_encode then c.negotiated_encoding else c.default_charset

unfoldable pub load_decoding_charset : Charset → CurrentCharset
load_decoding_charset c =
    if c.usage_always || c.binary_decode then c.negotiated_decoding else c.default_charset

abbrev pub default_charset_name : Charset → Bytes
default_charset_name c = c.default_charset.name

abbrev pub encoding_name : Charset → Bytes
encoding_name c = (load_encoding_charset c).name

abbrev pub decoding_name : Charset → Bytes
decoding_name c = (load_decoding_charset c).name

module _ (lower : Bytes → Bytes) (iana : Bytes → IanaEncoding) where
  unfoldable pub build_charset : Bytes → Option CurrentCharset
  build_charset code_page =
      if same_bytes (lower code_page) (text "utf-8")
      then some (record { name = text "UTF-8"; coding = replacement })
      else if same_bytes (lower code_page) (text "cp437-full")
      then some (record { name = text "CP437-FULL"; coding = cp437_full })
      else elim (iana code_page) [
        | invalid ↦ none
        | unsupported ↦ none
        | unnamed ↦ none
        | named name ↦ some (record {
          name = name;
          coding =
              if same_bytes (lower code_page) (text "us-ascii")
              then ascii code_page
              else page code_page;
        })
      ]

  -- The fallback, by the first result whether there is an error.
  unfoldable pub build_fallback : Bytes → Option (Option CurrentCharset)
  unfolding build_charset
  build_fallback [] = some none
  build_fallback (b ∷ bs) = elim (build_charset (b ∷ bs)) [ none ↦ none | some c ↦ some (some c) ]

  unfoldable pub new_charset : Bytes → Bytes → Bool → Option Charset
  unfolding build_charset build_fallback
  new_charset default_code_page fallback_code_page usage_always =
      elim (build_charset default_code_page) [
        | none ↦ none
        | some c ↦ elim (build_fallback fallback_code_page) [
          | none ↦ none
          | some f ↦ some (record {
            usage_always = usage_always;
            binary_encode = false;
            binary_decode = false;
            default_charset = c;
            negotiated_encoding = c;
            negotiated_decoding = c;
            fallback = f;
          })
        ]
      ]

  -- With whether it changed; nobody else changes the default in between.
  unfoldable pub promote_default_charset : Bytes → Bytes → Charset → Charset × Bool
  unfolding build_charset
  promote_default_charset old_code_page new_code_page c =
      if not (same_bytes c.default_charset.name old_code_page)
      then (c, false)
      else elim (build_charset new_code_page) [
        | none ↦ (c, false)
        | some new ↦ (record c { default_charset = new }, true)
      ]

  -- `none` is the error, on which nothing changes.
  unfoldable pub set_negotiated_encoding_charset : Bytes → Charset → Option Charset
  unfolding build_charset
  set_negotiated_encoding_charset code_page c = elim (build_charset code_page) [
    | none ↦ none
    | some new ↦ some (record c { negotiated_encoding = new })
  ]

  unfoldable pub set_negotiated_decoding_charset : Bytes → Charset → Option Charset
  unfolding build_charset
  set_negotiated_decoding_charset code_page c = elim (build_charset code_page) [
    | none ↦ none
    | some new ↦ some (record c { negotiated_decoding = new })
  ]
