-- ===== src/Bench/Stream/End.antt =====
-- A whole test of scripts/tb.py: what both sides have sent at its end.
use idli_v.Prelude.{◌≡◌, List, [], some}
use idli_v.Bench.{Bench}

-- At the end of a test nothing waits, and the exit code is zero.
record Ended (b : Bench) : Type 0 where
  no_sim : b.sim.env.sim_utx ≡ []
  no_rtl : b.rtl_utx ≡ []
  zero_code : b.exit_code ≡ some 0
