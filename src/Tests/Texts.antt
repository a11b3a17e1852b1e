-- ===== src/Tests/Texts.antt =====
-- The theorems on the texts of times and on the file server at concrete inputs.
use winterfell.Prelude.{
  ℕ, ◌<◌, ◌≤◌, ◌≡◌, refl, true, false, List, [], ◌∷◌, some, length, length-replicate, replicate,
  Bytes, codes, done, arith, decimal, decimal_onto,
}
use winterfell.Prelude.Int.{ℤ, pos}
use winterfell.Base.Timestamp.{Timestamp}
use winterfell.Base.Timestamp.Text.{BrokenDown, to_string, zero_padded, signed, pad}
use winterfell.Base.Timestamp.Text.Reading.{after_point, read_time, to_string-read}
use winterfell.Http.Request.{Request, fresh, get_header}
use winterfell.Http.Response.{fresh_response, add_header, set_content_type}
use winterfell.Http.StringMap.{find}
use winterfell.Prelude.{compare_bytes}
use winterfell.Example.Ftp.{Disk, Entry, partial_content, list_files, on_request, until_nul}
use winterfell.Example.Ftp.Ranges.{range_text, part, on_request-range}
use winterfell.Example.Ftp.Listing.{listed_names, lines_onto, AllPlain, list_files-lines}

abbrev some_time : Timestamp
some_time = record { micro_seconds = pos 12_000_034 }

to_string_small : to_string some_time ≡ codes "12.000034"
unfolding to_string signed zero_padded pad decimal decimal_onto
to_string_small = refl

to_string-read_example :
    (length (to_string some_time) ≤ 20)
    × (length (after_point (to_string some_time)) ≡ 6)
    × (read_time (to_string some_time) ≡ 12_000_034)
to_string-read_example = to_string-read 12_000_034 (omega arith)

-- A clock that always shows the same second of the year 1970.
abbrev stopped : ℤ → BrokenDown
stopped t = record {
  tm_year = pos 70;
  tm_mon = pos 0;
  tm_mday = pos 1;
  tm_hour = pos 0;
  tm_min = pos 0;
  tm_sec = pos 7;
}

abbrev disk : Disk
disk = record {
  directory = some (
      record { d_name = codes "."; is_regular = some false }
      ∷ record { d_name = codes "a"; is_regular = some true }
      ∷ record { d_name = codes "b"; is_regular = some true }
      ∷ []);
  file = λ name. some (codes "hello");
  garbage = λ n. replicate n 7;
}

abbrev asked : Request
asked = record fresh {
  query = codes "?get";
  headers = (codes "Range", codes "1-3") ∷ (codes "filename", codes "a") ∷ [];
}

range_header : get_header (codes "Range") asked ≡ range_text 1 3
unfolding get_header find compare_bytes decimal decimal_onto
range_header = refl

on_request-range_example :
    on_request disk asked (fresh_response false)
    ≡ done (
      record (add_header (codes "server") (codes "ftp") (
          set_content_type
            (codes "application/octet-stream")
            (record (fresh_response false) { status_code = partial_content }))) {
              body = until_nul (part 1 3 (codes "hello"));
            },
      1,
    )
on_request-range_example =
    on_request-range disk asked (fresh_response false) (codes "hello") 1 3
      (λ n. length-replicate {A = ℕ} n 7) refl range_header refl (omega arith) (omega arith)
      (omega arith)

body_text : until_nul (part 1 3 (codes "hello")) ≡ codes "ell"
unfolding until_nul
body_text = refl

abbrev entries : List Entry
entries =
    record { d_name = codes "."; is_regular = some false }
    ∷ record { d_name = codes "a"; is_regular = some true }
    ∷ record { d_name = codes "b"; is_regular = some true }
    ∷ []

two_files : 0 < length (listed_names entries)
two_files = omega arith

plain_files : AllPlain (listed_names entries)
plain_files = (refl, (refl, tt))

list_files-lines_example :
    (text : Bytes) × (list_files (some entries) ≡ done text)
    × (lines_onto [] text ≡ listed_names entries)
list_files-lines_example = list_files-lines entries two_files plain_files
