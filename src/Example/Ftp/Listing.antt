-- ===== src/Example/Ftp/Listing.antt =====
-- The listing of example/ftp/ftp_server.cc read back.
use winterfell.Prelude.{
  ℕ, Bool, true, not, ◌&&◌, ◌||◌, Option, none, map, bytes_eq, codes, ◌<◌, ◌≡◌, refl, ap, ◌∙◌,
  false, List, [], ◌∷◌, ◌++◌, some, length, Bytes, done, arith, ◌==◌, if◌then◌else◌, append_assoc,
}
use winterfell.Example.Ftp.{Entry, regular_files, join_onto, list_files, newline}

-- The lines of a text.
abbrev pub lines_onto : Bytes → Bytes → List Bytes
lines_onto line [] = line ∷ []
lines_onto line (c ∷ cs) =
    if c == newline then line ∷ lines_onto [] cs else lines_onto (line ++ c ∷ []) cs

-- A name that is not empty and has no newline.
abbrev pub IsPlain : Bytes → Type 0
IsPlain [] = ⊥
IsPlain (c ∷ []) = (c == newline) ≡ false
IsPlain (c ∷ d ∷ cs) = ((c == newline) ≡ false) × IsPlain (d ∷ cs)

abbrev pub AllPlain : List Bytes → Type 0
AllPlain [] = Unit
AllPlain (n ∷ ns) = IsPlain n × AllPlain ns

-- Behind a name come its own bytes, then the rest of the lines.
lines_name :
    (line name rest : Bytes)
    → IsPlain name
    → lines_onto line (name ++ newline ∷ rest) ≡ (line ++ name) ∷ lines_onto [] rest
lines_name line [] rest h = absurd h
lines_name line (c ∷ []) rest h = rw h refl
lines_name line (c ∷ d ∷ cs) rest h = rw h.0 (
    lines_name (line ++ c ∷ []) (d ∷ cs) rest h.1
    ∙ ap (λ l. l ∷ lines_onto [] rest) (append_assoc line (c ∷ []) (d ∷ cs)))

lines_last : (line name : Bytes) → IsPlain name → lines_onto line name ≡ (line ++ name) ∷ []
lines_last line [] h = absurd h
lines_last line (c ∷ []) h = rw h refl
lines_last line (c ∷ d ∷ cs) h = rw h.0 (
    lines_last (line ++ c ∷ []) (d ∷ cs) h.1
    ∙ ap (λ l. l ∷ []) (append_assoc line (c ∷ []) (d ∷ cs)))

-- The names with newlines between them.
abbrev pub joined : Bytes → List Bytes → Bytes
joined b [] = b
joined b (c ∷ ns) = b ++ newline ∷ joined c ns

joined-append :
    (a b : Bytes) (ns : List Bytes) → joined (a ++ newline ∷ b) ns ≡ a ++ newline ∷ joined b ns
joined-append a b [] = refl
joined-append a b (c ∷ ns) = append_assoc a (newline ∷ b) (newline ∷ joined c ns)

join_onto-joined :
    (c : ℕ) (cs : Bytes) (ns : List Bytes) → join_onto (c ∷ cs) ns ≡ joined (c ∷ cs) ns
unfolding join_onto
join_onto-joined c cs [] = refl
join_onto-joined c cs (b ∷ ns) =
    join_onto-joined c (cs ++ newline ∷ b) ns ∙ joined-append (c ∷ cs) b ns

lines-joined :
    (b : Bytes) (ns : List Bytes) → IsPlain b → AllPlain ns → lines_onto [] (joined b ns) ≡ b ∷ ns
lines-joined b [] h k = lines_last [] b h
lines-joined b (c ∷ ns) h k =
    lines_name [] b (joined c ns) h ∙ ap (λ l. b ∷ l) (lines-joined c ns k.0 k.1)

join-lines :
    (names : List Bytes)
    → 0 < length names
    → AllPlain names
    → lines_onto [] (join_onto [] names) ≡ names
unfolding join_onto
join-lines [] l h = absurd (omega arith)
join-lines ([] ∷ ns) l h = absurd h.0
join-lines ((c ∷ cs) ∷ ns) l h =
    ap (lines_onto []) (join_onto-joined c cs ns) ∙ lines-joined (c ∷ cs) ns h.0 h.1

-- Does `stat` say that it is a regular file?
abbrev pub is_file : Option Bool → Bool
is_file none = false
is_file (some regular) = regular

abbrev pub is_dots : Bytes → Bool
is_dots name = bytes_eq name (codes ".") || bytes_eq name (codes "..")

-- An entry to be listed is a regular file, and neither the directory itself nor its parent.
abbrev pub is_listed : Entry → Bool
is_listed e = is_file e.is_regular && not (is_dots e.d_name)

abbrev pub keep {ℓ} : {A : Type ℓ} → (A → Bool) → List A → List A
keep p [] = []
keep p (x ∷ xs) = if p x then x ∷ keep p xs else keep p xs

abbrev pub listed_names : List Entry → List Bytes
listed_names entries = map (λ e. e.d_name) (keep is_listed entries)

one_entry :
    (dots : Bool) (r : Option Bool) (e : Entry) (names : List Bytes) (entries : List Entry)
    → names ≡ map (λ e. e.d_name) entries
    → (if dots
        then names
        else elim r [ none ↦ names | some regular ↦ if regular then e.d_name ∷ names else names ])
      ≡ map (λ e. e.d_name) (if is_file r && not dots then e ∷ entries else entries)
one_entry true none e names entries h = h
one_entry true (some true) e names entries h = h
one_entry true (some false) e names entries h = h
one_entry false none e names entries h = h
one_entry false (some true) e names entries h = ap (λ ns. e.d_name ∷ ns) h
one_entry false (some false) e names entries h = h

regular_files-listed : (entries : List Entry) → regular_files entries ≡ listed_names entries
unfolding regular_files
regular_files-listed [] = refl
regular_files-listed (e ∷ entries) =
    one_entry (is_dots e.d_name) e.is_regular e (regular_files entries) (keep is_listed entries)
      (regular_files-listed entries)

-- When a directory opens and has entries that are regular files and neither . nor .., and none of
-- their names is empty or has a newline, the lines of the listing are the names of exactly these
-- entries, in the order of the directory.
pub list_files-lines :
    (entries : List Entry)
    → 0 < length (listed_names entries)
    → AllPlain (listed_names entries)
    → (text : Bytes) × (list_files (some entries) ≡ done text)
      × (lines_onto [] text ≡ listed_names entries)
unfolding list_files
list_files-lines entries l h =
    let same = regular_files-listed entries in
    (
      join_onto [] (regular_files entries),
      refl,
      ap (λ names. lines_onto [] (join_onto [] names)) same ∙ join-lines (listed_names entries) l h,
    )
