-- ===== src/Protocol/Header.antt =====
-- parse_request_header on the headers that a client sends, and what an accepted header is like
-- (protocol.cpp, with the header texts of client.cpp).
use link_scheduling.Prelude.{
  ℕ, ◌<◌, ◌≡◌, ◌≢◌, refl, sym, ap, ◌∙◌, some, [], ◌∷◌, ◌++◌, arith, append_assoc, u64_mod, map,
}
use link_scheduling.Prelude.Text.{Bytes, codes, eq_bytes}
use link_scheduling.Prelude.Decimal.{
  to_string, to_string-digits, stoull-to_string, decimal_onto-ne-nil,
}
use link_scheduling.Request.{get, put}
use link_scheduling.Protocol.{
  ok, header_request, extract, strip_line_end, parse_get, parse_put, put_count, parse_operation,
  parse_request_header, to_upper,
}
use link_scheduling.Protocol.Tokens.{
  IsWord, extract-word, extract-space-word, extract-last_word, extract-nil, strip_line_end-word,
  digits-all_digits, digits-IsWord,
}

-- What stands behind the operation in a line without its line end.
parse_line :
    (op line rest : Bytes) (fd : ℕ) (header : Bytes)
    → strip_line_end header ≡ line
    → line ≢ []
    → extract line ≡ some (op, rest)
    → parse_request_header header fd ≡ parse_operation fd (map to_upper op) rest
unfolding parse_request_header
parse_line op [] rest fd header e n x = absurd (n refl)
parse_line op (c ∷ line) rest fd header e n x = rw (e, x) refl

get-IsWord : IsWord (codes "GET")
get-IsWord = record { some_char = λ e. cc; no_space = (refl, (refl, (refl, tt))) }

put-IsWord : IsWord (codes "PUT")
put-IsWord = record { some_char = λ e. cc; no_space = (refl, (refl, (refl, tt))) }

-- The header lines that the client sends.
abbrev pub get_header : Bytes → Bytes
get_header filename = codes "GET " ++ (filename ++ b'\n' ∷ [])

abbrev pub put_header : Bytes → ℕ → Bytes
put_header filename bytes = codes "PUT " ++ (filename ++ (b' ' ∷ (to_string bytes ++ b'\n' ∷ [])))

parse_get-word :
    (fd : ℕ) (name : Bytes)
    → IsWord name
    → parse_get fd (b' ' ∷ name) ≡ ok (header_request fd get name 0)
unfolding parse_get
parse_get-word fd name h = ground (arith, extract-last_word name h, extract-nil)

-- The server reads the client's GET header as a GET of that file.
pub parse_request_header-get_header :
    (filename : Bytes) (fd : ℕ)
    → IsWord filename
    → parse_request_header (get_header filename) fd ≡ ok (header_request fd get filename 0)
parse_request_header-get_header filename fd h =
    parse_line (codes "GET") _ (b' ' ∷ filename) fd _
      (strip_line_end-word (codes "GET ") filename h) (λ e. cc)
      (extract-word (codes "GET") (b' ' ∷ filename) get-IsWord refl)
    ∙ unfold parse_operation eq_bytes in parse_get-word fd filename h

to_string-ne-nil : (n : ℕ) → to_string n ≢ []
unfolding to_string
to_string-ne-nil n = decimal_onto-ne-nil n n []

to_string-IsWord : (n : ℕ) → IsWord (to_string n)
to_string-IsWord n = digits-IsWord (to_string n) (to_string-ne-nil n) (to_string-digits n)

put_count-to_string :
    (fd : ℕ) (name : Bytes) (n : ℕ)
    → n < u64_mod
    → put_count fd name (to_string n) ≡ ok (header_request fd put name n)
put_count-to_string fd name n h = by_digits (to_string n) refl
  where
    by_digits :
        (s : Bytes) → to_string n ≡ s → put_count fd name s ≡ ok (header_request fd put name n)
    by_digits [] e = absurd (to_string-ne-nil n e)
    by_digits (c ∷ cs) e =
        let digits = digits-all_digits (c ∷ cs) (rw e at (to_string-digits n)) in
        unfold put_count in rw (digits, rw e at (stoull-to_string n h)) refl

parse_put-words :
    (fd : ℕ) (name : Bytes) (n : ℕ)
    → IsWord name
    → n < u64_mod
    → parse_put fd (b' ' ∷ (name ++ b' ' ∷ to_string n)) ≡ ok (header_request fd put name n)
unfolding parse_put
parse_put-words fd name n h k = ground (
  arith,
  extract-space-word name (b' ' ∷ to_string n) h refl,
  extract-last_word (to_string n) (to_string-IsWord n),
  extract-nil,
  put_count-to_string fd name n k,
)

strip_put :
    (name : Bytes) (n : ℕ)
    → strip_line_end (put_header name n) ≡ codes "PUT " ++ (name ++ b' ' ∷ to_string n)
strip_put name n =
    ap (λ (t : Bytes). strip_line_end (codes "PUT " ++ t))
      (sym (append_assoc name (b' ' ∷ []) (to_string n ++ b'\n' ∷ [])))
    ∙ strip_line_end-word (codes "PUT " ++ (name ++ b' ' ∷ [])) (to_string n) (to_string-IsWord n)
    ∙ ap (λ (t : Bytes). codes "PUT " ++ t) (append_assoc name (b' ' ∷ []) (to_string n))

-- The server reads the client's PUT header as a PUT of that file with that many bytes.
pub parse_request_header-put_header :
    (filename : Bytes) (bytes fd : ℕ)
    → IsWord filename
    → bytes < u64_mod
    → parse_request_header (put_header filename bytes) fd
      ≡ ok (header_request fd put filename bytes)
parse_request_header-put_header filename bytes fd h k =
    parse_line (codes "PUT") _ (b' ' ∷ (filename ++ b' ' ∷ to_string bytes)) fd _
      (strip_put filename bytes) (λ e. cc) (extract-word (codes "PUT") _ put-IsWord refl)
    ∙ unfold parse_operation eq_bytes in parse_put-words fd filename bytes h k
