-- ===== src/Base/Log/Lines.antt =====
-- The lines of winterfell/base/wf_log.cc.
use winterfell.Prelude.{
  ℕ, ◌≡◌, refl, ap, ◌∙◌, true, false, [], ◌∷◌, ◌++◌, Bytes, codes, decimal, decimal-AllDigits,
  AllDigits, leb, ◌==◌, arith, append_assoc,
}
use winterfell.Base.Log.{
  Level, trace, debug, info, warn, error, fatal, rank, level_string, Logger, new_event, put,
  until_zero, formatted, is_fatal, destroy_wrapper, log_level,
}

-- No `%` stands in the text.
abbrev pub NoPercent : Bytes → Type 0
NoPercent [] = Unit
NoPercent (c ∷ cs) = ((c == b'%') ≡ false) × NoPercent cs

NoPercent-append : (xs ys : Bytes) → NoPercent xs → NoPercent ys → NoPercent (xs ++ ys)
NoPercent-append [] ys h k = k
NoPercent-append (x ∷ xs) ys h k = (h.0, NoPercent-append xs ys h.1 k)

digits-NoPercent : (ds : Bytes) → AllDigits ds → NoPercent ds
digits-NoPercent [] h = tt
digits-NoPercent (c ∷ cs) h = (ground (arith, h.0), digits-NoPercent cs h.1)

level-NoPercent : (level : Level) → NoPercent (level_string level)
unfolding level_string
level-NoPercent trace = (refl, (refl, (refl, (refl, (refl, tt)))))
level-NoPercent debug = (refl, (refl, (refl, (refl, (refl, tt)))))
level-NoPercent info = (refl, (refl, (refl, (refl, tt))))
level-NoPercent warn = (refl, (refl, (refl, (refl, tt))))
level-NoPercent error = (refl, (refl, (refl, (refl, (refl, tt)))))
level-NoPercent fatal = (refl, (refl, (refl, (refl, (refl, tt)))))

formatted_plain :
    (text xs ys : Bytes)
    → NoPercent xs
    → formatted text false (xs ++ ys) ≡ xs ++ formatted text false ys
unfolding formatted
formatted_plain text [] ys h = refl
formatted_plain text (x ∷ xs) ys h = rw h.0 (ap (λ l. x ∷ l) (formatted_plain text xs ys h.1))

formatted_all : (text xs : Bytes) → NoPercent xs → formatted text false xs ≡ xs
unfolding formatted
formatted_all text [] h = refl
formatted_all text (x ∷ xs) h = rw h.0 (ap (λ l. x ∷ l) (formatted_all text xs h.1))

fatal_highest : (level : Level) → leb (rank level) (rank fatal) ≡ true
fatal_highest trace = refl
fatal_highest debug = refl
fatal_highest info = refl
fatal_highest warn = refl
fatal_highest error = refl
fatal_highest fatal = refl

-- The line: level, time, thread, the text up to its first zero byte, file and line number.
abbrev pub line : Level → Bytes → ℕ → Bytes → ℕ → Bytes → Bytes
line level time thread_id file lineno text =
    level_string level
    ++ (codes " ["
        ++ (time
            ++ (codes "] "
                ++ (decimal thread_id
                    ++ (codes " "
                        ++ (until_zero text
                            ++ (codes " - "
                                ++ (file ++ (codes ":" ++ (decimal lineno ++ codes "\n"))))))))))

module _ (level : Level) (time : Bytes) (thread_id : ℕ) (file : Bytes) (lineno : ℕ) (text : Bytes)
    (t : NoPercent time) (f : NoPercent file) where
  back : Bytes
  back = codes " - " ++ (file ++ (codes ":" ++ (decimal lineno ++ codes "\n")))

  back-NoPercent : NoPercent back
  unfolding back
  back-NoPercent = (
    refl,
    (
      refl,
      (
        refl,
        NoPercent-append file (codes ":" ++ (decimal lineno ++ codes "\n")) f (
          refl,
          NoPercent-append (decimal lineno) (codes "\n")
              (digits-NoPercent (decimal lineno) (decimal-AllDigits lineno)) (refl, tt),
        ),
      ),
    ),
  )

  substituted : formatted text false (codes "%s" ++ back) ≡ until_zero text ++ back
  unfolding formatted
  substituted = ap (λ l. until_zero text ++ l) (formatted_all text back back-NoPercent)

  front : Bytes → Bytes
  front rest =
      level_string level
      ++ (codes " [" ++ (time ++ (codes "] " ++ (decimal thread_id ++ (codes " " ++ rest)))))

  front_plain :
      (rest : Bytes) → formatted text false (front rest) ≡ front (formatted text false rest)
  unfolding front
  front_plain rest =
      rw
        (
          formatted_plain text (level_string level)
              (codes " [" ++ (time ++ (codes "] " ++ (decimal thread_id ++ (codes " " ++ rest)))))
              (level-NoPercent level),
          formatted_plain text (codes " [")
              (time ++ (codes "] " ++ (decimal thread_id ++ (codes " " ++ rest))))
              (refl, (refl, tt)),
          formatted_plain text time (codes "] " ++ (decimal thread_id ++ (codes " " ++ rest))) t,
          formatted_plain text (codes "] ") (decimal thread_id ++ (codes " " ++ rest))
              (refl, (refl, tt)),
          formatted_plain text (decimal thread_id) (codes " " ++ rest)
              (digits-NoPercent (decimal thread_id) (decimal-AllDigits thread_id)),
          formatted_plain text (codes " ") rest (refl, tt),
        )
        refl

  whole :
      (new_event level time thread_id file lineno).logfmt ++ codes "\n" ≡ front (codes "%s" ++ back)
  unfolding new_event front back
  whole = simp (append_assoc)

  printed_line :
      formatted text false ((new_event level time thread_id file lineno).logfmt ++ codes "\n")
      ≡ line level time thread_id file lineno text
  unfolding front back
  printed_line =
      ap (formatted text false) whole ∙ front_plain (codes "%s" ++ back) ∙ ap front substituted

  -- A LOG statement whose time and file have no `%`: at or above the logger's level it prints one line, and
  -- ends the program if its level is FATAL; below it, it prints nothing and goes on. So LOG_FATAL
  -- ends the program whatever the logger's level is.
  pub log_level_lem :
      (logger : Logger)
      → (leb (rank logger.level) (rank level) ≡ true
          → log_level logger level time thread_id file lineno text ≡ record {
            output = line level time thread_id file lineno text;
            aborts = is_fatal level;
          })
        × (leb (rank logger.level) (rank level) ≡ false
            → log_level logger level time thread_id file lineno text
              ≡ record { output = []; aborts = false })
        × ((log_level logger fatal time thread_id file lineno text).aborts ≡ true)
  unfolding log_level destroy_wrapper put new_event
  log_level_lem logger = (
    λ e. rw e (ap (λ out. record { output = out; aborts = is_fatal level }) printed_line),
    λ e. rw e refl,
    rw (fatal_highest logger.level) refl,
  )
