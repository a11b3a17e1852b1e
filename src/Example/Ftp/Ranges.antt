-- ===== src/Example/Ftp/Ranges.antt =====
-- What a range request of example/ftp/ftp_server.cc returns.
use winterfell.Prelude.{
  ℕ, suc, ◌+◌, ◌-◌, ◌^◌, ◌<◌, ◌≤◌, ◌≡◌, refl, ap, ◌∙◌, true, false, [], ◌∷◌, ◌++◌, some, none,
  length, length-take, length-drop, take, drop, Bytes, codes, is_digit, read_digits, read-decimal,
  decimal, decimal-AllDigits, decimal_nonempty, AllDigits, done, ltb, ◌==◌, arith, append-nil,
}
use winterfell.Prelude.Int.{pos, ◌+ℤ◌, ◌-ℤ◌, eq_of_parts, +ℤ_parts, -ℤ_parts}
use winterfell.Http.Request.{Request, get_header, skip_spaces, is_space}
use winterfell.Http.Response.{Response, add_header, set_content_type}
use winterfell.Example.Ftp.{
  Disk, partial_content, leading_digits, stoi_digits, in_int, stoi_signed, stoi, getline, newline,
  parse_range, read_into, until_nul, range_body, body_of_size, on_request,
}

leading_all : (ds : Bytes) → AllDigits ds → leading_digits ds ≡ ds
unfolding leading_digits
leading_all [] h = refl
leading_all (c ∷ cs) h = rw (h.0, leading_all cs h.1) refl

in_int_lem : (n : ℕ) → n < 2 ^ 31 → in_int (pos n) ≡ done (pos n)
unfolding in_int ◌-ℤ◌
in_int_lem n h = ground arith

-- A text of digits only, of a number below 2 ^ 31, is that number.
stoi-AllDigits :
    (ds : Bytes)
    → AllDigits ds
    → 0 < length ds
    → read_digits 0 ds < 2 ^ 31
    → stoi ds ≡ done (pos (read_digits 0 ds))
unfolding stoi stoi_signed stoi_digits skip_spaces is_space
stoi-AllDigits [] h l k = absurd (omega arith)
stoi-AllDigits (c ∷ cs) h l k =
    ground (arith, leading_all (c ∷ cs) h, in_int_lem (read_digits 0 (c ∷ cs)) k)

stoi-decimal : (n : ℕ) → n < 2 ^ 31 → stoi (decimal n) ≡ done (pos n)
stoi-decimal n h =
    stoi-AllDigits (decimal n) (decimal-AllDigits n) (decimal_nonempty n)
      (omega (arith, read-decimal n))
    ∙ ap (λ k. done (pos k)) (read-decimal n)

digit_ne : (c d : ℕ) → is_digit c ≡ true → is_digit d ≡ false → (c == d) ≡ false
digit_ne c d h k = ground arith

getline_stops :
    (d : ℕ) (ds rest : Bytes)
    → AllDigits ds
    → is_digit d ≡ false
    → getline d (ds ++ d ∷ rest) ≡ (ds, some rest)
unfolding getline
getline_stops d [] rest h k = ground arith
getline_stops d (c ∷ cs) rest h k = rw (digit_ne c d h.0 k, getline_stops d cs rest h.1 k) refl

getline_ends : (d : ℕ) (ds : Bytes) → AllDigits ds → is_digit d ≡ false → getline d ds ≡ (ds, none)
unfolding getline
getline_ends d [] h k = refl
getline_ends d (c ∷ cs) h k = rw (digit_ne c d h.0 k, getline_ends d cs h.1 k) refl

abbrev pub range_text : ℕ → ℕ → Bytes
range_text beg end = decimal beg ++ b'-' ∷ decimal end

parse_range-range_text :
    (beg end : ℕ)
    → beg < 2 ^ 31
    → end < 2 ^ 31
    → parse_range (range_text beg end) ≡ done (pos beg, pos end)
unfolding parse_range
parse_range-range_text beg end h k =
    rw
      (
        getline_stops b'-' (decimal beg) (decimal end) (decimal-AllDigits beg) refl,
        stoi-decimal beg h,
        getline_ends newline (decimal end) (decimal-AllDigits end) refl,
        stoi-decimal end k,
      )
      refl

abbrev pub part : ℕ → ℕ → Bytes → Bytes
part beg end content = take (suc end - beg) (drop beg content)

read_whole :
    (before content : Bytes) (beg : ℕ)
    → beg + length before ≤ length content
    → read_into before (some content) beg ≡ take (length before) (drop beg content)
unfolding read_into
read_whole before content beg h =
    ap (λ k. take (length before) (drop beg content) ++ drop k before) all_read
    ∙ ap (λ l. take (length before) (drop beg content) ++ l) (drop_all before)
    ∙ append-nil _
  where
    all_read : length (take (length before) (drop beg content)) ≡ length before
    all_read =
        omega (arith, length-take (length before) (drop beg content), length-drop beg content)

    drop_all : (xs : Bytes) → drop (length xs) xs ≡ []
    drop_all [] = refl
    drop_all (x ∷ xs) = drop_all xs

size_lem : (beg end : ℕ) → beg ≤ end → pos end -ℤ pos beg +ℤ pos 1 ≡ pos (suc end - beg)
size_lem beg end h =
    eq_of_parts _ _
      (omega (arith, -ℤ_parts (pos end) (pos beg), +ℤ_parts (pos end -ℤ pos beg) (pos 1)))

range_body_lem :
    (garbage : ℕ → Bytes) (content : Bytes) (beg end : ℕ)
    → ((n : ℕ) → length (garbage n) ≡ n)
    → beg ≤ end
    → end < length content
    → end < 2 ^ 31 - 1
    → range_body garbage (some content) (pos beg) (pos end)
      ≡ done (until_nul (part beg end content), 1)
unfolding range_body body_of_size
range_body_lem garbage content beg end g h k m =
    ap (body_of_size garbage (some content) (pos beg)) (size_lem beg end h)
    ∙ rw
        (
          small,
          not_inside,
          read_whole (garbage (suc end - beg)) content beg fits,
          g (suc end - beg),
        )
        refl
  where
    small : ltb (suc end - beg) (2 ^ 31) ≡ true
    small = ground arith

    not_inside : ltb (suc end - beg) (suc end - beg) ≡ false
    not_inside = ground arith

    fits : beg + length (garbage (suc end - beg)) ≤ length content
    fits = omega (arith, g (suc end - beg))

-- A request for the bytes from `beg` to `end` of a file that has them, `end` being below 2 ^ 31 - 1, is
-- answered by 206 and no status message, with the content type, the server header, and as its body these
-- bytes, but only up to the first zero byte among them; and it writes one byte behind its array. Fresh memory of a size is
-- that many bytes.
pub on_request-range :
    (disk : Disk) (req : Request) (resp : Response) (content : Bytes) (beg end : ℕ)
    → ((n : ℕ) → length (disk.garbage n) ≡ n)
    → req.query ≡ codes "?get"
    → get_header (codes "Range") req ≡ range_text beg end
    → disk.file (get_header (codes "filename") req) ≡ some content
    → beg ≤ end
    → end < length content
    → end < 2 ^ 31 - 1
    → on_request disk req resp
      ≡ done (
        record (add_header (codes "server") (codes "ftp") (
            set_content_type
              (codes "application/octet-stream")
              (record resp { status_code = partial_content }))) {
                body = until_nul (part beg end content);
              },
        1,
      )
unfolding on_request
on_request-range disk req resp content beg end g q r f h k m =
    rw
      (
        r,
        f,
        parse_range-range_text beg end (omega arith) (omega arith),
        range_body_lem disk.garbage content beg end g h k m,
        q,
      )
      refl
