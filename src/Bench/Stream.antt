-- ===== src/Bench/Stream.antt =====
-- What the UART checks of scripts/tb.py say of a whole test.
pub mod Compare
pub mod End
use mathlib.Core.List.{append_assoc, append-nil}
use idli_v.Prelude.{
  ℕ, zero, suc, ◌+◌, ◌≡◌, refl, sym, arith, ap, ap₂, subst, ◌∙◌, Bool, true, false, not, ◌||◌, List,
  [], ◌∷◌, ◌++◌, Option, none, some, low16, map, Result, ok, err, assertion, guard, guard-true,
  parts, then_parts, ◌>>=◌, ◌>>◌, ◌==◌, ==→eq, ◌⊎◌, inl, inr,
}
use idli_v.Sim.Host.{end_of_test}
use idli_v.Sim.State.{init}
use idli_v.Bench.{Scores, Bench}
use idli_v.Bench.Check.{Uarts, take_ref, compare, check_uart_data, is_empty, with_scores}
use idli_v.Bench.Stream.Compare.{Read, Compared, compare-Compared}
use idli_v.Bench.Run.{Config, init_bench, new_bench, loaded, scores_of, finish, is_zero}

-- What happens to the streams: a word of the simulator, a word of the hardware, or a check.
pub data Event : Type 0 where
  sim_sends rtl_sends : ℕ → Event
  checks : Event

abbrev pub add_sim : ℕ → Bench → Bench
add_sim v b = with_scores (λ t. record t { sim_utx = t.sim_utx ++ v ∷ [] }) b

abbrev pub handle : Event → Bench → Result Bench
handle (sim_sends v) b = ok (add_sim v b)
handle (rtl_sends v) b = ok (record b { rtl_utx = b.rtl_utx ++ v ∷ [] })
handle checks b = check_uart_data false b

abbrev pub handle_all : List Event → Bench → Result Bench
handle_all [] b = ok b
handle_all (e ∷ events) b = handle e b >>= λ b'. handle_all events b'

-- All that the simulator has sent, and the hardware.
abbrev pub sim_stream : List Event → List ℕ
sim_stream [] = []
sim_stream (sim_sends v ∷ events) = v ∷ sim_stream events
sim_stream (e ∷ events) = sim_stream events

abbrev pub rtl_stream : List Event → List ℕ
rtl_stream [] = []
rtl_stream (rtl_sends v ∷ events) = v ∷ rtl_stream events
rtl_stream (e ∷ events) = rtl_stream events

-- The words so far: those that were compared, and those that wait.
pub record Streams (ref0 ss rs : List ℕ) (b : Bench) : Type 0 where
  pub seen : List ℕ
  pub of_sim : ss ≡ seen ++ b.sim.env.sim_utx
  pub of_rtl : rs ≡ seen ++ b.rtl_utx
  pub read : Read ref0 seen b.ref_utx b.exit_code

abbrev pub old_uarts : Bench → Uarts
old_uarts b = record {
  sim = b.sim.env.sim_utx;
  rtl = b.rtl_utx;
  ref = b.ref_utx;
  code = b.exit_code;
  ended = b.end_of_test;
}

abbrev with_uarts : Uarts → Bench → Bench
with_uarts u b =
    with_scores (λ t. record t { sim_utx = u.sim })
      (record b { rtl_utx = u.rtl; ref_utx = u.ref; exit_code = u.code; end_of_test = u.ended })

-- What a check that passes has compared, and at the end of the test nothing is left.
pub check_uart_data-parts :
    (final : Bool) (b : Bench) {b' : Bench}
    → check_uart_data final b ≡ ok b'
    → (u : Uarts) × (compare b.sim.env.sim_utx b.rtl_utx (old_uarts b) ≡ ok u)
      × (with_uarts u b ≡ b')
      × ((not final || is_empty u.sim) ≡ true)
      × ((not final || is_empty u.rtl) ≡ true)
unfolding check_uart_data
check_uart_data-parts final b h =
    let end : Uarts → Result Bench =
      λ u. guard (not final || is_empty b.utx.words) assertion >> ok (with_uarts u b) in
    let input : Uarts → Result Bench =
      λ u. guard (not final || is_empty b.sim.env.sim_urx) assertion >> end u in
    let out : Uarts → Result Bench =
      λ u. guard (not final || is_empty u.rtl) assertion >> input u in
    let (u, h1, run) =
      parts (compare b.sim.env.sim_utx b.rtl_utx (old_uarts b))
        (λ u. guard (not final || is_empty u.sim) assertion >> out u) h in
    let (h2, sim) = then_parts (guard (not final || is_empty u.sim) assertion) (out u) h1 in
    let (h3, rtl) = then_parts (guard (not final || is_empty u.rtl) assertion) (input u) h2 in
    let (h4, x) =
      then_parts (guard (not final || is_empty b.sim.env.sim_urx) assertion) (end u) h3 in
    let (h5, y) =
      then_parts (guard (not final || is_empty b.utx.words) assertion) (ok (with_uarts u b)) h4 in
    (
      u,
      run,
      cc h5,
      guard-true (not final || is_empty u.sim) assertion sim.1,
      guard-true (not final || is_empty u.rtl) assertion rtl.1,
    )
