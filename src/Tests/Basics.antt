-- ===== src/Tests/Basics.antt =====
-- The theorems on the logger, threads, locks and endpoints at concrete inputs.
use winterfell.Prelude.{
  ◌≡◌, refl, true, false, List, [], ◌∷◌, ◌++◌, some, none, Option, Bytes, codes, decimal, leb,
  arith,
}
use winterfell.Base.Log.{Logger, warn, info, fatal, rank, log_level, is_fatal}
use winterfell.Base.Log.Lines.{line, log_level_lem}
use winterfell.Base.Thread.{fresh_thread}
use winterfell.Base.Thread.Lifetime.{Event, starts, runs, waits, life, is_legal, EndsWell, life_lem}
use winterfell.Base.Mutex.{MutexLock, move, waiting, inside, outside}
use winterfell.Net.Endpoint.{Address, of_port, of_ip_port, get_port, get_ip_port, dotted}
use winterfell.Net.Endpoint.Ports.{of_ip_port_lem}

abbrev quiet : Logger
quiet = record { level = warn }

log_level_lem_example :
    (leb (rank warn) (rank info) ≡ true
      → log_level quiet info (codes "now") 7 (codes "a.cc") 3 (codes "hi") ≡ record {
        output = line info (codes "now") 7 (codes "a.cc") 3 (codes "hi");
        aborts = is_fatal info;
      })
    × (leb (rank warn) (rank info) ≡ false
        → log_level quiet info (codes "now") 7 (codes "a.cc") 3 (codes "hi")
          ≡ record { output = []; aborts = false })
    × ((log_level quiet fatal (codes "now") 7 (codes "a.cc") 3 (codes "hi")).aborts ≡ true)
log_level_lem_example =
    log_level_lem info (codes "now") 7 (codes "a.cc") 3 (codes "hi") (refl, (refl, (refl, tt)))
      (refl, (refl, (refl, (refl, tt)))) quiet

abbrev one_life : List Event
one_life = starts 0 ∷ runs 41 ∷ waits ∷ []

life_lem_example : EndsWell (is_legal one_life false false) false false (life one_life fresh_thread)
life_lem_example = life_lem one_life

abbrev locked_by_1 : MutexLock
locked_by_1 = record {
  owner = some 1;
  holder = 1;
  place = move 1 inside (move 1 waiting (λ t. outside));
}

-- It reads no text.
abbrev refuses : Bytes → Option Address
refuses ip = none

of_ip_port_lem_example :
    (get_port true (of_port true 8888) ≡ 8888)
    × (get_port true (of_ip_port true refuses (codes "localhost") 8888) ≡ 8888)
    × ((address : Address)
        → refuses (codes "localhost") ≡ some address
        → get_ip_port true (of_ip_port true refuses (codes "localhost") 8888)
          ≡ dotted address ++ 58 ∷ decimal 8888)
    × (refuses (codes "localhost") ≡ none
        → get_ip_port true (of_ip_port true refuses (codes "localhost") 8888)
          ≡ codes "0.0.0.0" ++ 58 ∷ decimal 8888)
of_ip_port_lem_example = of_ip_port_lem true refuses (codes "localhost") 8888 (omega arith)
