-- ===== src/Config/Tests.antt =====
-- Tests of the configuration (internal/config/config.go).
use liveurl.Config.Limits.{IsPaced, IsUsable, start_limiters-IsUsable}
use liveurl.Config.{Environment, Floats, Limiters, load_server, negsuc, start_limiters}
use liveurl.Prelude.{Option, arith, codes, some, ℕ, ◌*◌, ◌/◌, ◌==◌}

-- Rates are numbers of a thousandth, and the one that is set is zero.
abbrev thousandths : Floats ℕ
thousandths = record {
  literal = λ n. n * 1000;
  is_nonpositive = λ x. x == 0;
  per_second = λ x. x / 60;
}

abbrev zero_rates : Environment ℕ
zero_rates = record {
  lookup = λ key. codes "0";
  atoi = λ s. some (negsuc 4);
  parse_float = λ s. some 0;
}

start_limiters-IsUsable_example :
    let l : Limiters ℕ (Option ℕ) =
      start_limiters thousandths (load_server thousandths zero_rates) in
    IsUsable thousandths l.tunnel
    × IsUsable thousandths l.dashboard
    × IsPaced thousandths l.handshake
start_limiters-IsUsable_example =
    start_limiters-IsUsable thousandths zero_rates (λ n h. ground (arith, h))
