-- ===== src/Http/Line.antt =====
-- The request line: the part of `onion_http_parse_start_line` (src/onion/request.c) that finds the
-- end of the line and its two spaces. A pointer into the line is its offset from
-- `buff_data_start`.
pub mod Shape
use checks.Prelude.{ℕ, ◌+◌, ◌-◌, Option, none, some, List, [], ◌∷◌, ◌==◌, if◌then◌else◌, take}
use checks.Prelude.Memory.{window}
use checks.Http.Search.{chacha, stringa}

-- The three parts of a line, and `line_len`, its length with no CR LF.
pub record Line : Type 0 where
  pub name : List ℕ
  pub url : List ℕ
  pub version : List ℕ
  pub line_len : ℕ

pub data Found : Type 0 where
  incomplete : Found
  malformed : Found
  found : Line → Found

abbrev pub space : ℕ
space = 32

abbrev pub crlf : List ℕ
crlf = 13 ∷ 10 ∷ []

-- From `endUrl` on.
unfoldable pub cut : List ℕ → ℕ → ℕ → ℕ → Line
cut bytes line_len name_size url_size =
    let url_start = name_size + 1 in
    let version_start = url_start + url_size + 1 in
    record {
      name = take name_size bytes;
      url = window url_start url_size bytes;
      version = window version_start (line_len - version_start) bytes;
      line_len = line_len;
    }

-- From `endName` on.
unfoldable pub find_url : List ℕ → ℕ → ℕ → Found
find_url bytes line_len name_size =
    let url_start = name_size + 1 in
    elim (chacha (window url_start (line_len - url_start) bytes) space) [
      | none ↦ malformed
      | some url_size ↦ found (cut bytes line_len name_size url_size)
    ]

-- From `endVersion` on.
unfoldable pub find_name : List ℕ → ℕ → Found
find_name bytes line_len =
    if line_len == 0 then malformed else elim (chacha (take line_len bytes) space) [
      | none ↦ malformed
      | some name_size ↦ find_url bytes line_len name_size
    ]

unfoldable pub find_line : List ℕ → Found
find_line bytes = elim (stringa bytes crlf) [
  | none ↦ incomplete
  | some line_len ↦ find_name bytes line_len
]
