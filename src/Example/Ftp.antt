-- ===== src/Example/Ftp.antt =====
-- The HTTP callback of the file server, example/ftp/ftp_server.cc. An uncaught exception ends the program,
-- as a failed assert does. What the file system holds is an argument.
pub mod Ranges
pub mod Listing
use winterfell.Prelude.{
  ℕ, zero, suc, ◌+◌, ◌-◌, ◌^◌, Bool, true, false, not, ◌&&◌, ◌||◌, List, [], ◌∷◌, ◌++◌, Option,
  some, none, length, take, drop, Bytes, bytes_eq, codes, is_digit, read_digits, Run, done, aborted,
  looping, ◌>>=◌, ◌>>◌, assert, follow, ltb, leb, ◌==◌, if◌then◌else◌,
}
use winterfell.Prelude.Int.{ℤ, pos, negsuc, pos_part, ◌+ℤ◌, ◌-ℤ◌, ltb_ℤ}
use winterfell.Http.Request.{Request, get_header, skip_spaces}
use winterfell.Http.Response.{Response, add_header, set_content_type, not_found}

abbrev pub ok_status : ℕ
ok_status = 200

abbrev pub partial_content : ℕ
partial_content = 206

-- A directory entry: what `stat` says of it, if it succeeds: whether it is a regular file.
pub record Entry : Type 0 where
  pub d_name : Bytes
  pub is_regular : Option Bool

-- The loop over the entries.
unfoldable pub regular_files : List Entry → List Bytes
regular_files [] = []
regular_files (e ∷ entries) =
    let rest = regular_files entries in
    if bytes_eq e.d_name (codes ".") || bytes_eq e.d_name (codes "..")
    then rest
    else elim e.is_regular [
      | none ↦ rest
      | some regular ↦ if regular then e.d_name ∷ rest else rest
    ]

abbrev pub newline : ℕ
newline = 10

-- `accumulate`: `a` is what has been joined.
unfoldable pub join_onto : Bytes → List Bytes → Bytes
join_onto a [] = a
join_onto a (b ∷ names) = join_onto (elim a [ [] ↦ b | c ∷ cs ↦ (c ∷ cs) ++ newline ∷ b ]) names

-- `list_files`: `opendir` may return a null pointer, which `readdir` follows.
unfoldable pub list_files : Option (List Entry) → Run Bytes
list_files dir = follow dir >>= λ entries. done (join_onto [] (regular_files entries))

unfoldable pub leading_digits : Bytes → Bytes
leading_digits [] = []
leading_digits (c ∷ cs) = let rest = c ∷ leading_digits cs in if is_digit c then rest else []

-- The digits that `stoi` needs: without any, it throws.
unfoldable pub stoi_digits : Bytes → Run ℕ
stoi_digits text = elim (leading_digits text) [
  | [] ↦ aborted
  | c ∷ cs ↦ done (read_digits 0 (c ∷ cs))
]

-- Out of the range of `int`, it throws too.
unfoldable pub in_int : ℤ → Run ℤ
in_int n = assert (ltb_ℤ n (pos (2 ^ 31)) && not (ltb_ℤ n (pos 0 -ℤ pos (2 ^ 31)))) >> done n

-- `stoi` behind the spaces.
unfoldable pub stoi_signed : Bytes → Run ℤ
stoi_signed [] = aborted
stoi_signed (c ∷ cs) =
    if c == b'-'
    then (stoi_digits cs >>= λ n. in_int (pos 0 -ℤ pos n))
    else if c == b'+'
    then (stoi_digits cs >>= λ n. in_int (pos n))
    else (stoi_digits (c ∷ cs) >>= λ n. in_int (pos n))

unfoldable pub stoi : Bytes → Run ℤ
stoi text = stoi_signed (skip_spaces text)

-- `getline(ss, …, delimiter)`: what stands before the delimiter, and what behind it, if it is there.
unfoldable pub getline : ℕ → Bytes → Bytes × Option Bytes
getline delimiter [] = ([], none)
getline delimiter (c ∷ cs) =
    let (line, left) = getline delimiter cs in
    if c == delimiter then ([], some cs) else (c ∷ line, left)

-- The two numbers of the range. Without a '-' the first call reaches the end of the stream, and the
-- second fails at once and leaves `sub_str` as it was.
unfoldable pub parse_range : Bytes → Run (ℤ × ℤ)
parse_range range = do
  let (first, left) = getline b'-' range
  beg ← stoi first
  end ← stoi (elim left [ none ↦ first | some rest ↦ (getline newline rest).0 ])
  done (beg, end)

-- A new array of this many chars, which holds what was there before, after a read of the file at an
-- offset: the bytes that the file has, at most as many as the array. A file that does not open gives
-- none.
unfoldable pub read_into : Bytes → Option Bytes → ℕ → Bytes
read_into before none beg = before
read_into before (some content) beg =
    let got = take (length before) (drop beg content) in got ++ drop (length got) before

-- The bytes of a C string.
unfoldable pub until_nul : Bytes → Bytes
until_nul [] = []
until_nul (c ∷ cs) = let rest = c ∷ until_nul cs in if c == 0 then [] else rest

-- Where `seekg` goes: a negative offset fails, and the reads after it.
abbrev pub at_offset : ℤ → Option Bytes → Option Bytes
at_offset (pos b) file = file
at_offset (negsuc b) file = none

-- The body of a range request in an array of this size, and the number of bytes that it writes behind the
-- array: the terminating zero is put at the index `end - beg + 1`, which is the size. A negative size throws.
unfoldable pub body_of_size : (ℕ → Bytes) → Option Bytes → ℤ → ℤ → Run (Bytes × ℕ)
body_of_size garbage file beg (negsuc n) = aborted
body_of_size garbage file beg (pos size) = do
  assert (ltb size (2 ^ 31))
  let buf = read_into (garbage size) (at_offset beg file) (pos_part beg)
  let terminator = size
  done (until_nul buf, if ltb terminator size then 0 else 1)

unfoldable pub range_body : (ℕ → Bytes) → Option Bytes → ℤ → ℤ → Run (Bytes × ℕ)
range_body garbage file beg end = body_of_size garbage file beg (end -ℤ beg +ℤ pos 1)

-- What the callback reads from the file system: the directory, the files by name, and what fresh memory
-- of a size holds.
pub record Disk : Type 0 where
  pub directory : Option (List Entry)
  pub file : Bytes → Option Bytes
  pub garbage : ℕ → Bytes

-- `onRequest`: the response, and the bytes written out of bounds.
unfoldable pub on_request : Disk → Request → Response → Run (Response × ℕ)
on_request disk req resp =
    if bytes_eq req.query (codes "?ls")
    then (list_files disk.directory >>= λ files.
        let typed =
          set_content_type (codes "text/plain")
            (record resp { status_code = ok_status; status_message = codes "OK" }) in
        done (record (add_header (codes "server") (codes "ftp") typed) { body = files }, 0))
    else if bytes_eq req.query (codes "?get")
    then (do
      let filename = get_header (codes "filename") req
      let typed =
          set_content_type (codes "application/octet-stream")
            (record resp { status_code = partial_content })
      let named = add_header (codes "server") (codes "ftp") typed
      (beg, end) ← parse_range (get_header (codes "Range") req)
      (body, outside) ← range_body disk.garbage (disk.file filename) beg end
      done (record named { body = body }, outside))
    else done (
      record resp {
        status_code = not_found;
        status_message = codes "Not Found";
        close_connection = true;
      },
      0,
    )
