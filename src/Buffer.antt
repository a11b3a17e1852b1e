-- ===== src/Buffer.antt =====
-- The class `Buffer` of winterfell/net/wf_buffer.h and winterfell/net/wf_buffer.cc.
-- The vector of chars is a list of bytes; the two indices and the lengths that callers pass are
-- not negative, as every caller in the library has them. A failed `assert` is `aborted`.
pub mod Content
pub mod Growth
pub mod Queue
pub mod Search
use winterfell.Prelude.{
  ℕ, zero, suc, ◌+◌, ◌-◌, List, [], ◌∷◌, ◌++◌, Bool, true, false, ◌&&◌, Option, none, some, length,
  take, drop, replicate, copy_at, slice, Bytes, Run, done, aborted, ◌>>=◌, ◌>>◌, assert, ltb, leb,
  ◌==◌, if◌then◌else◌,
}

abbrev pub cheap_prepend : ℕ
cheap_prepend = 8

abbrev pub initial_size : ℕ
initial_size = 1024

pub record Buffer : Type 0 where
  pub storage : Bytes
  pub reader_index : ℕ
  pub writer_index : ℕ

-- The constructor.
unfoldable pub empty : Buffer
empty = record {
  storage = replicate (cheap_prepend + initial_size) 0;
  reader_index = cheap_prepend;
  writer_index = cheap_prepend;
}

unfoldable pub swap : Buffer → Buffer → Buffer × Buffer
swap b rhs = (rhs, b)

abbrev pub readable_bytes : Buffer → ℕ
readable_bytes b = b.writer_index - b.reader_index

abbrev pub writable_bytes : Buffer → ℕ
writable_bytes b = length b.storage - b.writer_index

abbrev pub prependable_bytes : Buffer → ℕ
prependable_bytes b = b.reader_index

-- The bytes from `peek()` up to `beginWrite()`.
abbrev pub peek : Buffer → Bytes
peek b = slice b.storage b.reader_index b.writer_index

-- `std::search` for "\r\n": the offset of the first match, or of the end.
unfoldable pub search_crlf : Bytes → ℕ
search_crlf [] = 0
search_crlf (x ∷ []) = 1
search_crlf (x ∷ y ∷ xs) =
    let rest = search_crlf (y ∷ xs) in if (x == 13) && (y == 10) then 0 else suc rest

-- The offset of the first CRLF from `peek()`; `none` is NULL.
unfoldable pub find_crlf : Buffer → Option ℕ
find_crlf b =
    let crlf = search_crlf (peek b) in if crlf == readable_bytes b then none else some crlf

unfoldable pub retrieve : ℕ → Buffer → Run Buffer
retrieve n b = do
  assert (leb n (readable_bytes b))
  done (record b { reader_index = b.reader_index + n })

unfoldable pub retrieve_all : Buffer → Buffer
retrieve_all b = record b { reader_index = cheap_prepend; writer_index = cheap_prepend }

-- `retrieveUntil(peek() + n)`
unfoldable pub retrieve_until : ℕ → Buffer → Run Buffer
retrieve_until n b = do assert (leb (b.reader_index + n) b.writer_index); retrieve n b

unfoldable pub retrieve_as_string : Buffer → Bytes × Buffer
retrieve_as_string b = (peek b, retrieve_all b)

-- With a length: `string(peek(), n)` reads from the storage, whatever is readable.
unfoldable pub retrieve_as_string_n : ℕ → Buffer → Run (Bytes × Buffer)
retrieve_as_string_n n b = do
  rest ← retrieve n b
  done (take n (drop b.reader_index b.storage), rest)

-- `vector::resize`
abbrev pub resize : ℕ → Bytes → Bytes
resize n xs = take n (xs ++ replicate (n - length xs) 0)

unfoldable pub make_space : ℕ → Buffer → Buffer
make_space len b =
    if ltb (writable_bytes b + prependable_bytes b) (len + cheap_prepend)
    then record b { storage = resize (b.writer_index + len) b.storage }
    else record b {
      storage = copy_at cheap_prepend (peek b) b.storage;
      reader_index = cheap_prepend;
      writer_index = cheap_prepend + readable_bytes b;
    }

-- Both forms of `append`.
unfoldable pub append : Bytes → Buffer → Buffer
append xs b =
    let c = if ltb (writable_bytes b) (length xs) then make_space (length xs) b else b in
    record c {
      storage = copy_at c.writer_index xs c.storage;
      writer_index = c.writer_index + length xs;
    }

unfoldable pub prepend : Bytes → Buffer → Run Buffer
prepend xs b = do
  assert (leb (length xs) (prependable_bytes b))
  let r = b.reader_index - length xs
  done (record b { storage = copy_at r xs b.storage; reader_index = r })

-- What `readv` did with the storage after `beginWrite()` and then `extrabuf`.
pub data ReadResult : Type 0 where
  -- It returned -1, with this errno.
  failed : ℕ → ReadResult
  -- It delivered these bytes, at most `writableBytes() + sizeof extrabuf` of them.
  received : Bytes → ReadResult

abbrev pub extra_size : ℕ
extra_size = 65536

-- The state after `readFd`, with the `savedErrno` that it set. `readv` fills the first vector, up
-- to its length, before the second.
unfoldable pub read_fd : ReadResult → Buffer → Option ℕ × Buffer
read_fd (failed e) b = (some e, b)
read_fd (received xs) b =
    let writable = writable_bytes b in
    let filled = copy_at b.writer_index (take writable xs) b.storage in
    if leb (length xs) writable
    then (none, record b { storage = filled; writer_index = b.writer_index + length xs })
    else (
      none,
      append (drop writable xs) (record b { storage = filled; writer_index = length filled }),
    )
