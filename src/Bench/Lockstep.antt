-- ===== src/Bench/Lockstep.antt =====
-- One round of `_check_instr` of scripts/tb.py.
use idli_v.Prelude.{
  ℕ, ◌^◌, ◌≡◌, refl, sym, ap, subst, ◌∙◌, Bool, false, not, Option, some, none, [], ◌∷◌, list_eq,
  list_eq→eq, Result, ok, assertion, guard, guard-true, parts, then_parts, ◌>>=◌, ◌>>◌, ◌==◌,
}
use idli_v.Isa.Instr.{format_bin}
use idli_v.Sim.State.{Sim}
use idli_v.Sim.Tick.{tick}
use idli_v.Bench.{Board, get, Scores, callback, Rtl, Bench}
use idli_v.Bench.Check.{
  with_scores, check_pc, check_regs, check_reg_writes, check_pred, check_pred_writes, check_pin,
  check_pin_writes, bit_of, lowest_bit, rtl_word,
}
use idli_v.Bench.Run.{check_instr, check_stores, advance}
use idli_v.Bench.Writes.{AllAgree, check_regs-AllAgree}
use idli_v.Bench.Stores.{rtl_stored, check_mem_writes-rtl_stored}

-- What the check of the stores reads is the same.
record SameStores (a : ℕ) (b b' : Bench) : Type 0 where
  sim_side : get a b'.sim.env.sim_st_data ≡ get a b.sim.env.sim_st_data
  rtl_side : rtl_stored b' a ≡ rtl_stored b a
  same_fpga : b'.fpga ≡ b.fpga

-- The scoreboards that the other checks change.
same_scores :
    (a : ℕ) (f : Scores → Scores) (b : Bench)
    → (f b.sim.env).sim_st_data ≡ b.sim.env.sim_st_data
    → SameStores a b (with_scores f b)
unfolding rtl_word
same_scores a f b h = record { sim_side = ap (get a) h; rtl_side = refl; same_fpga = refl }

check_reg_writes-parts :
    (a : ℕ) (rtl : Rtl) (b : Bench) {x : Rtl × Bench}
    → check_reg_writes rtl b ≡ ok x
    → AllAgree rtl b.sim.env.sim_reg_sb 15 1
      × SameStores a b x.1
      × (x.0 ≡ record rtl { reg_sb = 0 })
unfolding check_reg_writes
check_reg_writes-parts a rtl b {x} h =
    let (rest, checked) = then_parts (check_regs rtl b.sim.env.sim_reg_sb 15 1) _ h in
    let same : (record rtl { reg_sb = 0 }, with_scores (λ t. record t { sim_reg_sb = [] }) b) ≡ x =
      cc rest in
    (
      check_regs-AllAgree rtl b.sim.env.sim_reg_sb 15 1 checked.1,
      subst (λ (y : Rtl × Bench). SameStores a b y.1) same
          (same_scores a (λ t. record t { sim_reg_sb = [] }) b refl),
      ap (λ (y : Rtl × Bench). y.0) (sym same),
    )

check_pred-SameStores :
    (a : ℕ) (rtl : Rtl) (p : Option Bool) (b : Bench) {x : Rtl × Bench}
    → check_pred rtl p b ≡ ok x
    → SameStores a b x.1
check_pred-SameStores a rtl none b {x} h =
    let (rest, z) = then_parts (guard (rtl.pred_sb == 0) assertion) _ h in
    let same : (rtl, b) ≡ x = cc rest in
    subst (λ (y : Rtl × Bench). SameStores a b y.1) same (same_scores a (λ t. t) b refl)
check_pred-SameStores a rtl (some v) b {x} h =
    let tests =
      guard (not (rtl.pred_sb == 0)) assertion
      >> guard (list_eq (format_bin 1 (bit_of v)) rtl.pred) assertion in
    let clear : Scores → Scores = λ t. record t { sim_pred = none } in
    let (rest, z) = then_parts tests (ok (record rtl { pred_sb = 0 }, with_scores clear b)) h in
    let same : (record rtl { pred_sb = 0 }, with_scores clear b) ≡ x = cc rest in
    subst (λ (y : Rtl × Bench). SameStores a b y.1) same (same_scores a clear b refl)

check_pin-SameStores :
    (a : ℕ) (rtl : Rtl) (pins : Board ℕ) (b : Bench) {x : Rtl × Bench}
    → check_pin rtl pins b ≡ ok x
    → SameStores a b x.1
check_pin-SameStores a rtl [] b {x} h =
    let (rest, z) = then_parts (guard (rtl.pins_out_sb == 0) assertion) _ h in
    let same : (rtl, b) ≡ x = cc rest in
    subst (λ (y : Rtl × Bench). SameStores a b y.1) same (same_scores a (λ t. t) b refl)
check_pin-SameStores a rtl ((pin, v) ∷ pins) b {x} h =
    let level = rtl.out_pins (lowest_bit rtl.pins_out_sb rtl.pins_out_sb) in
    let tests =
      guard (2 ^ pin == rtl.pins_out_sb) assertion
      >> guard (list_eq (format_bin 1 v) level) assertion in
    let clear : Scores → Scores = λ t. record t { sim_out_pin = [] } in
    let (rest, z) = then_parts tests (ok (record rtl { pins_out_sb = 0 }, with_scores clear b)) h in
    let same : (record rtl { pins_out_sb = 0 }, with_scores clear b) ≡ x = cc rest in
    subst (λ (y : Rtl × Bench). SameStores a b y.1) same (same_scores a clear b refl)

-- An instruction that passes all checks, without the FPGA, was done in lockstep: the hardware was
-- at the program counter of the behavioural model, which ran one tick, and then the marks and data
-- of R1 to R15 agree with what the model has written in this tick and before it since the last
-- check, and the stores agree at every address.
pub check_instr-lockstep :
    (rtl rtl' : Rtl) (b b' : Bench) (a : ℕ)
    → b.fpga ≡ false
    → check_instr rtl b ≡ ok (rtl', b')
    → (s : Sim Scores) × (tick callback none b.sim ≡ ok (tt, s))
      × (rtl.pc ≡ format_bin 16 b.sim.pc)
      × AllAgree rtl s.env.sim_reg_sb 15 1
      × (get a s.env.sim_st_data ≡ rtl_stored (record b { sim = s }) a)
unfolding check_instr check_pc check_pred_writes check_pin_writes
check_instr-lockstep rtl rtl' b b' a board h =
    let done : Rtl × Bench → Result (Rtl × Bench) =
      λ x. check_stores (x.1).fpga x.1 >>= λ c. ok (x.0, advance c) in
    let pins : Rtl × Bench → Result (Rtl × Bench) = λ x. check_pin_writes x.0 x.1 >>= done in
    let preds : Rtl × Bench → Result (Rtl × Bench) = λ x. check_pred_writes x.0 x.1 >>= pins in
    let regs : Unit {0} × Sim Scores → Result (Rtl × Bench) =
      λ x. check_reg_writes rtl (record b { sim = x.1 }) >>= preds in
    let (h0, at) = then_parts (check_pc rtl b) (tick callback none b.sim >>= regs) h in
    let ((u, s), h1, ticked) = parts (tick callback none b.sim) regs h0 in
    let b0 = record b { sim = s } in
    let (x1, h2, e1) = parts (check_reg_writes rtl b0) preds h1 in
    let (agree, same1, cleared) = check_reg_writes-parts a rtl b0 e1 in
    let (x2, h3, e2) = parts (check_pred_writes x1.0 x1.1) pins h2 in
    let same2 = check_pred-SameStores a x1.0 x1.1.sim.env.sim_pred x1.1 e2 in
    let (x3, h4, e3) = parts (check_pin_writes x2.0 x2.1) done h3 in
    let same3 = check_pin-SameStores a x2.0 x2.1.sim.env.sim_out_pin x2.1 e3 in
    let (c, h5, e4) = parts (check_stores x3.1.fpga x3.1) (λ c. ok (x3.0, advance c)) h4 in
    let no_fpga = same3.same_fpga ∙ (same2.same_fpga ∙ (same1.same_fpga ∙ board)) in
    let stores =
      check_mem_writes-rtl_stored x3.1 c a
        (ap (λ (t : Bool). check_stores t x3.1) (sym no_fpga) ∙ e4) in
    (
      s,
      ticked,
      sym (list_eq→eq (format_bin 16 b.sim.pc) rtl.pc (guard-true _ assertion at.1)),
      agree,
      sym (same3.sim_side ∙ (same2.sim_side ∙ same1.sim_side))
          ∙ (stores ∙ (same3.rtl_side ∙ (same2.rtl_side ∙ same1.rtl_side))),
    )
