-- ===== src/Examples/Texts.antt =====
-- Headers of the protocol, and lines of a file.
use link_scheduling.Prelude.{◌+◌, ◌≡◌, ◌⊎◌, refl, arith, some, none, List, [], ◌∷◌, length, drop}
use link_scheduling.Prelude.Text.{Bytes, codes, eq_bytes}
use link_scheduling.Prelude.Decimal.{stoull, digits_value}
use link_scheduling.Request.{get, put}
use link_scheduling.FileIo.{read_file_line}
use link_scheduling.FileIo.Lines.{lines}
use link_scheduling.FileIo.Lines.Read.{Holds, read_file_line-lines}
use link_scheduling.Protocol.{
  ok, throws, header_request, parse_request_header, strip_line_end, skip_space, read_word, extract,
  parse_operation, parse_get, parse_put, put_count,
}
use link_scheduling.Protocol.Tokens.{IsWord}
use link_scheduling.Protocol.Header.{
  get_header, put_header, parse_request_header-get_header, parse_request_header-put_header,
}
use link_scheduling.Examples.{disk, text}

name_IsWord : IsWord (codes "a.txt")
name_IsWord = record { some_char = λ e. cc; no_space = (refl, (refl, (refl, (refl, (refl, tt))))) }

parse_request_header-get_header_example :
    parse_request_header (get_header (codes "a.txt")) 4
    ≡ ok (header_request 4 get (codes "a.txt") 0)
parse_request_header-get_header_example =
    parse_request_header-get_header (codes "a.txt") 4 name_IsWord

parse_request_header-put_header_example :
    parse_request_header (put_header (codes "a.txt") 120) 4
    ≡ ok (header_request 4 put (codes "a.txt") 120)
parse_request_header-put_header_example =
    parse_request_header-put_header (codes "a.txt") 120 4 name_IsWord (omega arith)

lower_case :
    parse_request_header (codes "get  a.txt \r\n") 4 ≡ ok (header_request 4 get (codes "a.txt") 0)
unfolding parse_request_header strip_line_end extract skip_space read_word parse_operation parse_get
    eq_bytes
lower_case = refl

bad_count : parse_request_header (codes "PUT a.txt -1\n") 4 ≡ throws (codes "invalid byte count")
unfolding parse_request_header strip_line_end extract skip_space read_word parse_operation parse_put
    put_count eq_bytes
bad_count = refl

too_large :
    parse_request_header (codes "PUT a.txt 18446744073709551616\n") 4
    ≡ throws (codes "invalid byte count")
unfolding parse_request_header strip_line_end extract skip_space read_word parse_operation parse_put
    put_count eq_bytes stoull digits_value
too_large = refl

pub text-Holds : Holds disk (codes "srv/a.txt") text
unfolding eq_bytes
text-Holds = record { opens = refl; stored = refl; seekable = omega arith }

read_file_line-lines_example :
    ((lines (drop 3 text) ≡ []) × (read_file_line disk (codes "srv/a.txt") 3 ≡ none))
    ⊎ ((l : Bytes) × (ls : List Bytes) × (lines (drop 3 text) ≡ l ∷ ls)
        × (read_file_line disk (codes "srv/a.txt") 3 ≡ some (l, 3 + length l))
        × (lines (drop (3 + length l) text) ≡ ls))
read_file_line-lines_example =
    read_file_line-lines disk (codes "srv/a.txt") text 3 text-Holds (omega arith)
