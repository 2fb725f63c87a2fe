-- ===== src/Asm/Labels/Arrive.antt =====
-- A branch that scripts/asm.py resolves arrives at its label in scripts/sim.py.
use idli_v.Prelude.{
  ℕ, suc, ◌+◌, ◌-◌, ◌*◌, ◌/◌, ◌%◌, ◌^◌, ◌≤◌, ◌<◌, ◌≡◌, refl, sym, ap, ◌∙◌, arith, true, false, none,
  some, ok, ◌==◌, leb, Text, Dict, find, List, ◌∷◌, if◌then◌else◌, low16, ℤ, pos, negsuc, ◌+ℤ◌,
  sub_ℕ, Bool-cases, inl, inr, ◌⊎◌,
}
use idli_v.Isa.Mnem.{Mnem}
use idli_v.Isa.Instr.{no_ops, Imm, int, ref, Instruction, Item, instr, item_size, sp}
use idli_v.Asm.Labels.{Search, split_name, target, resolve_ref, resolve_item}
use idli_v.Sim.State.{Callback, Sim}
use idli_v.Sim.Exec.{u2s, jmp, value_c}
use idli_v.Sim.Tick.{is_idle, exec, run_item}
use idli_v.Sim.Step.{arrive, arrive-pc, run_item-is_idle}

-- `b` with this immediate.
abbrev pub branch : Imm → Instruction
branch imm = record {
  mnem = Mnem.b;
  ops = record no_ops { c = some sp; imm = some imm };
  cond = none;
  cex_mask = none;
}

-- Sixteen low bits do not see the sign.
minus : (m : ℕ) → pos m +ℤ negsuc 65535 ≡ sub_ℕ m 65536
minus m = ground arith

minus_more : (m : ℕ) → negsuc m +ℤ negsuc 65535 ≡ negsuc (m + 65536)
minus_more m = ground arith

add_pos : (n m : ℕ) → pos n +ℤ pos m ≡ pos (n + m)
add_pos n m = ground arith

add_negsuc : (n m : ℕ) → pos n +ℤ negsuc m ≡ sub_ℕ n (suc m)
add_negsuc n m = ground arith

low16-above : (n m : ℕ) → m ≤ n → low16 (sub_ℕ n m) ≡ (n - m) % 65536
low16-above n m h = ground arith

low16-below : (n m : ℕ) → n < m → low16 (sub_ℕ n m) ≡ 65535 - (m - n - 1) % 65536
low16-below n m h = ground arith

-- The low bits of a difference, by a congruence.
low16-sub : (n m r i : ℕ) → r < 65536 → n + i * 65536 ≡ m + r → low16 (sub_ℕ n m) ≡ r
low16-sub n m r i h e = elim (Bool-cases (leb m n)) [
  | inl p ↦ let more : m ≤ n = ground arith in low16-above n m more ∙ omega (arith, e, h, more)
  | inr p ↦ let less : n < m = ground arith in low16-below n m less ∙ omega (arith, e, h, less)
]

u2s-pos : (d : ℕ) → d < 65536 → (u2s (pos d) ≡ pos d) ⊎ (u2s (pos d) ≡ negsuc (65535 - d))
unfolding u2s
u2s-pos d h = elim (Bool-cases (d % 65536 / 32768 == 1)) [
  | inl e ↦ inr (rw e (minus d ∙ ground arith))
  | inr e ↦ inl (rw e refl)
]

u2s-negsuc : (d : ℕ) → (u2s (negsuc d) ≡ negsuc d) ⊎ (u2s (negsuc d) ≡ negsuc (d + 65536))
unfolding u2s
u2s-negsuc d = elim (Bool-cases ((65535 - d % 65536) / 32768 == 1)) [
  | inl e ↦ inr (rw e (minus_more d))
  | inr e ↦ inl (rw e refl)
]

ahead : (pc d : ℕ) → pc + d < 65536 → low16 (pos pc +ℤ u2s (pos d)) ≡ pc + d
ahead pc d h = elim (u2s-pos d (omega arith)) [
  | inl e ↦ rw (e, add_pos pc d) (omega arith)
  | inr e ↦
      rw (e, add_negsuc pc (65535 - d)) (low16-sub pc (suc (65535 - d)) (pc + d) 1 h (omega arith))
]

behind : (a d : ℕ) → a < 65536 → low16 (pos (a + suc d) +ℤ u2s (negsuc d)) ≡ a
behind a d h = elim (u2s-negsuc d) [
  | inl e ↦ rw (e, add_negsuc (a + suc d) d) (low16-sub (a + suc d) (suc d) a 0 h (omega arith))
  | inr e ↦
      rw (e, add_negsuc (a + suc d) (d + 65536))
        (low16-sub (a + suc d) (suc (d + 65536)) a 1 h (omega arith))
]

-- The offset of a label leads to the label.
offset_leads : (pc a : ℕ) → a < 65536 → low16 (pos pc +ℤ u2s (sub_ℕ a pc)) ≡ a
offset_leads pc a h = elim (Bool-cases (leb pc a)) [
  | inl e ↦
      let d = a - pc in
      let sum : pc + d ≡ a = ground arith in
      let offset : sub_ℕ a pc ≡ pos d = ground arith in
      rw offset (ahead pc d (omega (arith, sum)) ∙ sum)
  | inr e ↦
      let d = pc - a - 1 in
      let sum : a + suc d ≡ pc = ground arith in
      let offset : sub_ℕ a pc ≡ negsuc d = ground arith in
      rw offset (ap (λ (t : ℕ). low16 (pos t +ℤ u2s (negsuc d))) (sym sum) ∙ behind a d h)
]

module _ {E : Type 0} (cb : Callback E) where
  exec-branch :
      (z : ℤ) (s : Sim E)
      → exec cb Mnem.b (branch (int z)).ops none s ≡ ok (some (low16 (pos s.pc +ℤ u2s z)), s)
  unfolding exec jmp value_c
  exec-branch z s = refl

  branch-arrives :
      (a : ℕ) (s : Sim E)
      → is_idle s.cond ≡ true
      → a < 2 ^ 16
      → (s' : Sim E) × (run_item cb (instr (branch (int (sub_ℕ a (s.pc + 1))))) s ≡ ok (tt, s'))
        × (s'.pc ≡ (if a == 0 then s.pc + 2 else a))
  unfolding exec item_size
  branch-arrives a s h small =
      let z = sub_ℕ a (s.pc + 1) in
      let item = instr (branch (int z)) in
      let s1 = record s { pc = s.pc + 1 } in
      let lead = offset_leads (s.pc + 1) a small in
      (
        arrive cb item (some (low16 (pos (s.pc + 1) +ℤ u2s z))) (s.pc + 2) s1,
        run_item-is_idle cb item s h (exec-branch z s1),
        arrive-pc cb item (low16 (pos (s.pc + 1) +ℤ u2s z)) (s.pc + 2) s1 ∙ rw lead refl,
      )

-- The offset that the label's nearest address `a` has from `pc`.
resolve_item-branch :
    (labels : Dict (List ℕ)) (mark : ℕ) (name short : Text) (search : Search) (label : List ℕ)
    (pc a : ℕ)
    → (mark == b'$') ≡ false
    → split_name name ≡ (search, short)
    → find short labels ≡ some label
    → target search pc label ≡ some a
    → resolve_item labels (some pc) (instr (branch (ref (mark ∷ name))))
      ≡ ok (instr (branch (int (sub_ℕ a (pc + 1)))))
unfolding resolve_ref
resolve_item-branch labels mark name short search label pc a m n f t = rw (n, f, m, t) refl

-- A branch to a relative reference to a known label, which the assembler resolves for the address
-- at which the simulator is: if the search finds an address below 2^16, the reference is resolved,
-- and the instruction that the branch becomes arrives there, if no condition holds it back; but at
-- the next instruction if that address is zero.
pub run_item-branch :
    {E : Type 0} (cb : Callback E) (labels : Dict (List ℕ)) (mark : ℕ) (name short : Text)
    (search : Search) (label : List ℕ) (a : ℕ) (s : Sim E)
    → (mark == b'$') ≡ false
    → split_name name ≡ (search, short)
    → find short labels ≡ some label
    → target search s.pc label ≡ some a
    → is_idle s.cond ≡ true
    → a < 2 ^ 16
    → (item : Item) × (s' : Sim E) × (resolve_item labels
          (some s.pc)
          (instr (branch (ref (mark ∷ name))))
        ≡ ok item)
      × (run_item cb item s ≡ ok (tt, s'))
      × (s'.pc ≡ (if a == 0 then s.pc + 2 else a))
run_item-branch cb labels mark name short search label a s m n f t h small =
    let (s', ran, arrived) = branch-arrives cb a s h small in
    (
      instr (branch (int (sub_ℕ a (s.pc + 1)))),
      s',
      resolve_item-branch labels mark name short search label s.pc a m n f t,
      ran,
      arrived,
    )
