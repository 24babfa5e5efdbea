-- ===== src/Logger/Lines.antt =====
-- KanchoNet/Utils/Logger.cpp: which calls write a line.
use kancho_net.Common.{ℕ, ◌≡◌, ◌≤◌, List, ◌∷◌, arith, leb, if◌then◌else◌}
use kancho_net.Logger.{
  LogLevel, debug, info, warning, error, critical, Logger, rank, level_string, fitted, log, log_at,
  log_critical,
}

-- A message is written exactly when its level is not below the one that is set, cut to what fits; a
-- critical one always is.
pub log_at_lem :
    (level : LogLevel) (message : List ℕ) (l : Logger)
    → log_at level message l ≡ (
        if leb (rank l.current) (rank level)
        then record l {
          lines = record { level = level_string level; message = fitted message } ∷ l.lines;
        }
        else l)
unfolding log_at log
log_at_lem level message l = ground arith

rank-le : (level : LogLevel) → rank level ≤ 4
unfolding rank
rank-le debug = omega arith
rank-le info = omega arith
rank-le warning = omega arith
rank-le error = omega arith
rank-le critical = omega arith

pub log_critical_lem :
    (message : List ℕ) (l : Logger)
    → log_critical message l ≡ record l {
      lines = record { level = level_string critical; message = fitted message } ∷ l.lines;
    }
unfolding log_critical log rank
log_critical_lem message l = ground (arith, rank-le l.current)
