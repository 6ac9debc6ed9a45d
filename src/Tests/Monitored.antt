-- ===== src/Tests/Monitored.antt =====
-- The theorem on the lines of MONITOR at a concrete line.
use librediscxx.Base.{◌≡◌, refl, pos, codes, lacks-Lacks, arith}
use librediscxx.Monitor.Line.{counted, parse_line}
use librediscxx.Monitor.Reading.{monitor_line, parse_line-monitor_line}

parse_line-monitor_line_example :
    parse_line (monitor_line (codes "+1317279070.687700 (") 12 (codes "EXPIRE") (codes " \"k\"")) 11
    ≡ (counted (codes "EXPIRE") (pos 12), 11)
parse_line-monitor_line_example =
    parse_line-monitor_line (codes "+1317279070.687700 (") 12 (codes "EXPIRE") (codes " \"k\"") 11
      refl (omega arith) (lacks-Lacks 34 (codes "EXPIRE") refl)
      (lacks-Lacks 0 (codes "EXPIRE") refl) (λ e. omega (arith, e))
