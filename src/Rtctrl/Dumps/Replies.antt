-- ===== src/Rtctrl/Dumps/Replies.antt =====
-- The client reads a dump as the router wrote it.
use f_copss.Rtctrl.Dumps.{
  codes, find, strip, onto_front, Asio, with_delimiter, is_feed, is_return, receive, receive_body,
  receive_dump, header_at, count_of,
}
use f_copss.Rtctrl.Dumps.Text.{
  find-other, IsFree-EndsOutside, IsFree-StartsOutside, Numerals, IsNumeral, IsNumeral-IsFree,
  find-next, find-free, read_until-free, trim_line-crlf, is_numeral,
}
use f_copss.Rtctrl.Request.RoundTrip.{trim_return, trim_field, IsField, get_lines-crlf}
use f_copss.Rtctrl.Request.{crlf}
use f_copss.Rtctrl.Response.{Response, no_response, set_header, set_fields, set_field}
use f_copss.Rtctrl.Param.{set_param}
use f_copss.Router.Dumps.{dump_reply, put_lines}
use f_copss.Router.CmdServer.Platform.{Host}
use f_copss.Router.CmdServer.Reader.{get_lines, is_colon, is_space, lookup}
use f_copss.Boost.{Boost, IsFree}
use f_copss.Prelude.Decimal.{decimal}
use f_copss.Prelude.{
  Bool, length-append, ◌^◌, append_assoc, ◌≡◌, length, ℕ, All, ◌<◌, List, Bytes, [], ◌∷◌, some,
  none, refl, arith, ◌++◌, ap, ◌∙◌, true, false, ok, bytes_eq_iff, bytes_eq, append-nil,
}

-- A line of a dump: no end of a line in it.
abbrev pub IsPlainLine : Bytes → Type 0
IsPlainLine line = IsFree is_return line

-- The name of a count, as a key of a header.
abbrev pub IsName : Bytes → Type 0
IsName name = IsField name × IsFree is_feed name × IsFree is_return name × (0 < length name)

-- The response that a dump is read as.
abbrev pub dump_response : Bytes → ℕ → Response
dump_response name n = record { result = codes "OK"; reason = []; header = (name, decimal n) ∷ [] }

module _ ⦃asio : Asio⦄ ⦃boost : Boost⦄ where
  pub receive_body-put_lines :
      (lines : List Bytes) (rest : Bytes)
      → All IsPlainLine lines
      → receive_body (length lines) (put_lines lines ++ rest) ≡ ok (lines, rest)
  unfolding receive_body put_lines
  receive_body-put_lines [] rest a = refl
  receive_body-put_lines (line ∷ lines) rest (f, a) =
      let whole : (line ++ (13 ∷ 10 ∷ put_lines lines)) ++ rest
          ≡ line ++ (13 ∷ 10 ∷ (put_lines lines ++ rest)) =
        append_assoc line (13 ∷ 10 ∷ put_lines lines) rest in
      let read =
        ap (asio.read_until (13 ∷ 10 ∷ [])) whole
        ∙ read_until-free 13 line (10 ∷ []) (put_lines lines ++ rest) f in
      rw (read, receive_body-put_lines lines rest a, trim_line-crlf line f) refl

  abbrev empty_line : Bytes
  empty_line = 13 ∷ 10 ∷ 13 ∷ 10 ∷ []

  -- Behind the first line the first empty line is the one that ends the header.
  find-empty_line :
      (s behind : Bytes)
      → 0 < length s
      → IsFree is_return s
      → find empty_line (codes "OK" ++ (13 ∷ 10 ∷ (s ++ (empty_line ++ behind))))
        ≡ some (codes "OK" ++ (13 ∷ 10 ∷ s), behind)
  find-empty_line [] behind l f = absurd (omega arith)
  find-empty_line (c ∷ s) behind l (other, f) =
      let differs : strip empty_line (13 ∷ 10 ∷ c ∷ (s ++ (empty_line ++ behind))) ≡ none =
        unfold strip in ground arith in
      find-other 13 79 (10 ∷ 13 ∷ 10 ∷ []) _ refl
      ∙ ap (onto_front 79) (
          find-other 13 75 (10 ∷ 13 ∷ 10 ∷ []) _ refl
          ∙ ap (onto_front 75) (
              find-next empty_line 13 _ differs
              ∙ ap (onto_front 13) (
                  find-other 13 10 (10 ∷ 13 ∷ 10 ∷ []) _ refl
                  ∙ ap (onto_front 10)
                      (find-free 13 (c ∷ s) (10 ∷ 13 ∷ 10 ∷ []) behind (other, f)))))

  -- The header of a dump.
  abbrev header_text : Bytes → ℕ → Bytes
  header_text name n = name ++ (b':' ∷ 32 ∷ decimal n)

  set_field-split :
      (s key text : Bytes) (response : Response)
      → 0 < length s
      → boost.split is_colon s ≡ key ∷ text ∷ []
      → set_field s response ≡ record response {
        header =
            set_param (boost.trim_if is_space key) (boost.trim_if is_space text) response.header;
      }
  set_field-split [] key text response l e = absurd (omega arith)
  set_field-split (c ∷ s) key text response l e = rw (e, set_field) refl

  trim_numeral : (s : Bytes) → IsFree is_space s → boost.trim_if is_space (32 ∷ s) ≡ s
  trim_numeral s f =
      let trimmed =
        boost.trim_if_lem is_space (32 ∷ []) s [] (refl, tt) tt (IsFree-StartsOutside is_space s f)
          (IsFree-EndsOutside is_space s f) in
      rw append-nil at trimmed

  set_field-count :
      (name : Bytes) (n : ℕ) (response : Response)
      → IsName name
      → IsNumeral (decimal n)
      → set_field (header_text name n) response
        ≡ record response { header = set_param name (decimal n) response.header }
  set_field-count name n response (field, feed, back, l) (long, digits) =
      let no_colon = IsNumeral-IsFree is_colon (decimal n) (λ c d. ground arith) digits in
      let no_space = IsNumeral-IsFree is_space (decimal n) (λ c d. ground arith) digits in
      set_field-split (header_text name n) name (32 ∷ decimal n) response
        (omega (arith, length-append name (b':' ∷ 32 ∷ decimal n)))
        (boost.split-join is_colon b':' name ((32 ∷ decimal n) ∷ []) refl field.0
          ((refl, no_colon), tt))
      ∙ rw (trim_field name field, trim_numeral (decimal n) no_space) refl

  IsFree-append : (p : ℕ → Bool) (a b : Bytes) → IsFree p a → IsFree p b → IsFree p (a ++ b)
  IsFree-append p [] b f g = g
  IsFree-append p (c ∷ a) b f g = (f.0, IsFree-append p a b f.1 g)

  header-IsFree :
      (p : ℕ → Bool) (name : Bytes) (n : ℕ)
      → ((c : ℕ) → is_numeral c ≡ true → p c ≡ false)
      → p b':' ≡ false
      → p 32 ≡ false
      → IsFree p name
      → IsNumeral (decimal n)
      → IsFree p (header_text name n)
  header-IsFree p name n f colon space free (long, digits) =
      IsFree-append p name (b':' ∷ 32 ∷ decimal n) free
        (colon, (space, IsNumeral-IsFree p (decimal n) f digits))

  -- The header of a dump is read as the number behind its name.
  set_header-count :
      (name : Bytes) (n : ℕ)
      → IsName name
      → IsNumeral (decimal n)
      → set_header ((codes "OK" ++ (13 ∷ 10 ∷ header_text name n)) ++ empty_line) no_response
        ≡ dump_response name n
  unfolding set_header set_fields get_lines bytes_eq set_param
  set_header-count name n named numeral =
      let (field, feed, back, l) = named in
      let free_feed = header-IsFree is_feed name n (λ c d. ground arith) refl refl feed numeral in
      let free_back = header-IsFree is_return name n (λ c d. ground arith) refl refl back numeral in
      let lines = get_lines-crlf (header_text name n) (crlf []) free_feed in
      let ends = IsFree-EndsOutside is_return (header_text name n) free_back in
      let counted =
        set_field-count name n (record no_response { result = codes "OK" }) named numeral in
      rw
        (
          lines,
          trim_return (codes "OK") refl,
          trim_return (header_text name n) ends,
          trim_return [] tt,
          counted,
        )
        refl

module _ ⦃asio : Asio⦄ ⦃boost : Boost⦄ ⦃host : Host⦄ ⦃numerals : Numerals⦄ where
  count_of-number :
      (name : Bytes) (n : ℕ) → n < 2 ^ 32 → count_of (header_at name (dump_response name n)) ≡ ok n
  unfolding lookup
  count_of-number name n l =
      let known = (bytes_eq_iff name name).1 refl in
      let number = numerals.lexical_cast-decimal (2 ^ 32) n l (omega arith) in
      let there : header_at name (dump_response name n) ≡ decimal n =
        rw (known, header_at, lookup) refl in
      rw there (rw (number, count_of) refl)

  -- What the router sends, the client reads as the same lines.
  pub receive_dump-dump_reply :
      (name : Bytes) (lines : List Bytes) (rest : Bytes)
      → IsName name
      → All IsPlainLine lines
      → length lines < 2 ^ 32
      → receive_dump name (dump_reply name lines ++ rest)
        ≡ ok (record { response = dump_response name (length lines); body = lines }, rest)
  unfolding receive_dump
  receive_dump-dump_reply name lines rest named a l =
      let n = length lines in
      let number = numerals.lexical_cast-decimal (2 ^ 32) n l (omega arith) in
      let numeral = numerals.lexical_cast-IsNumeral (2 ^ 32) n (decimal n) number in
      let (field, feed, back, long) = named in
      let free_back = header-IsFree is_return name n (λ c d. ground arith) refl refl back numeral in
      let whole : dump_reply name lines ++ rest
          ≡ codes "OK"
            ++ (13 ∷ 10 ∷ (header_text name n ++ (empty_line ++ (put_lines lines ++ rest)))) =
        unfold dump_reply in simp append_assoc in
      let found =
        find-empty_line (header_text name n) (put_lines lines ++ rest)
          (omega (arith, length-append name (b':' ∷ 32 ∷ decimal n))) free_back in
      let read =
        ap (asio.read_until empty_line) whole
        ∙ asio.read_until_lem empty_line _
        ∙ ap (with_delimiter empty_line) found in
      rw
        (
          read,
          receive_dump,
          receive,
          set_header-count name n named numeral,
          count_of-number name n l,
          receive_body-put_lines lines rest a,
        )
        refl
