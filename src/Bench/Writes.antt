-- ===== src/Bench/Writes.antt =====
-- What the checks of scripts/tb.py on registers and memory mean.
use idli_v.Prelude.{
  ℕ, zero, suc, ◌+◌, ◌/◌, ◌%◌, ◌^◌, ◌≡◌, refl, sym, ◌↔◌, arith, not, [], Option, none, some,
  list_eq, list_eq_refl, list_eq→eq, ok, assertion, guard, guard-true, then_parts, ◌==◌, ==→eq,
}
use idli_v.Isa.Instr.{format_bin}
use idli_v.Bench.{Board, get, Rtl, Bench}
use idli_v.Bench.Check.{check_reg, check_regs, check_reg_writes, with_scores}

-- The hardware agrees on one register: it has no mark of a write, or the mark and the value.
abbrev pub Agree : Rtl → ℕ → Option ℕ → Type 0
Agree rtl i none = rtl.reg_sb / 2 ^ i % 2 ≡ 0
Agree rtl i (some v) = (rtl.reg_sb / 2 ^ i % 2 ≡ 1) × (rtl.reg_data i ≡ format_bin 16 v)

-- On all registers from `i` on.
abbrev pub AllAgree : Rtl → Board ℕ → ℕ → ℕ → Type 0
AllAgree rtl sb zero i = Unit {0}
AllAgree rtl sb (suc left) i = Agree rtl i (get i sb) × AllAgree rtl sb left (i + 1)

check_reg-Agree :
    (rtl : Rtl) (i : ℕ) (v : Option ℕ) {u : Unit {0}} → check_reg rtl i v ≡ ok u → Agree rtl i v
check_reg-Agree rtl i none h =
    let test = guard-true (not (rtl.reg_sb / 2 ^ i % 2 == 1)) assertion h in ground (arith, test)
check_reg-Agree rtl i (some v) h =
    let (value, mark) =
      then_parts (guard (rtl.reg_sb / 2 ^ i % 2 == 1) assertion)
        (guard (list_eq (format_bin 16 v) (rtl.reg_data i)) assertion) h in
    (
      ==→eq (rtl.reg_sb / 2 ^ i % 2) 1 (guard-true (rtl.reg_sb / 2 ^ i % 2 == 1) assertion mark.1),
      sym (
          list_eq→eq (format_bin 16 v) (rtl.reg_data i)
            (guard-true (list_eq (format_bin 16 v) (rtl.reg_data i)) assertion value)),
    )

Agree-check_reg : (rtl : Rtl) (i : ℕ) (v : Option ℕ) → Agree rtl i v → check_reg rtl i v ≡ ok tt
Agree-check_reg rtl i none h = rw h refl
Agree-check_reg rtl i (some v) (mark, value) = rw (mark, value, list_eq_refl (format_bin 16 v)) refl

pub check_regs-AllAgree :
    (rtl : Rtl) (sb : Board ℕ) (n i : ℕ) {u : Unit {0}}
    → check_regs rtl sb n i ≡ ok u
    → AllAgree rtl sb n i
unfolding check_regs
check_regs-AllAgree rtl sb zero i h = tt
check_regs-AllAgree rtl sb (suc n) i h =
    let (rest, first) = then_parts (check_reg rtl i (get i sb)) (check_regs rtl sb n (i + 1)) h in
    (check_reg-Agree rtl i (get i sb) first.1, check_regs-AllAgree rtl sb n (i + 1) rest)

AllAgree-check_regs :
    (rtl : Rtl) (sb : Board ℕ) (n i : ℕ) → AllAgree rtl sb n i → check_regs rtl sb n i ≡ ok tt
unfolding check_regs
AllAgree-check_regs rtl sb zero i h = refl
AllAgree-check_regs rtl sb (suc n) i (h, rest) =
    rw (Agree-check_reg rtl i (get i sb) h) (AllAgree-check_regs rtl sb n (i + 1) rest)

-- The check of the registers passes exactly if the hardware agrees on each of R1 to R15: it marks
-- a register as written when the behavioural model has written it, and only then, and its data
-- are the sixteen binary digits of the value of the model. Both scoreboards are then empty.
pub check_reg_writes-AllAgree :
    (rtl : Rtl) (b : Bench)
    → (check_reg_writes rtl b
        ≡ ok (record rtl { reg_sb = 0 }, with_scores (λ t. record t { sim_reg_sb = [] }) b))
      ↔ AllAgree rtl b.sim.env.sim_reg_sb 15 1
unfolding check_reg_writes
check_reg_writes-AllAgree rtl b = (
  λ h.
      let (rest, checked) = then_parts (check_regs rtl b.sim.env.sim_reg_sb 15 1) _ h in
      check_regs-AllAgree rtl b.sim.env.sim_reg_sb 15 1 checked.1,
  λ h. rw (AllAgree-check_regs rtl b.sim.env.sim_reg_sb 15 1 h) refl,
)
