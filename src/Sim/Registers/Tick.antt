-- ===== src/Sim/Registers/Tick.antt =====
-- All instructions of scripts/sim.py keep the register file valid, and so does `tick`.
use idli_v.Prelude.{
  ℕ, zero, suc, ◌+◌, ◌-◌, ◌^◌, ◌≤◌, ◌<◌, ◌≡◌, refl, arith, Bool, true, false, Option, none, some,
  ok, Result, if◌then◌else◌, Bool-cases, inl, inr, List, [], ◌∷◌, get_elem?, ltb, all-get_elem?,
  subst, key_error,
}
use idli_v.Isa.Mnem.{Mnem}
use idli_v.Isa.Instr.{Ops, Item, instr, raw, item_size}
use idli_v.Sim.State.{Callback, Sim, init, M, pure, modify, ◌>>=◌, ◌>>◌, op_and, op_or}
use idli_v.Sim.Tick.{
  straight, exec, exec_item, set_pc, check_run, step_count, step_carry, keeps_carry, is_idle,
  run_item, tick,
}
use idli_v.Sim.Registers.{
  IsValid, Post, Keeps, Anything, >>=-Ensures, if-Ensures, pure-Ensures, raise-Ensures,
  modify-Keeps, IsValid-regs, call-Ensures,
}
use idli_v.Sim.Registers.Exec.{
  any_gets, add_sub-Keeps, cmp-Keeps, jmp-Keeps, utx-Keeps, urx-Keeps, inc_dec-Keeps, st-Keeps,
  addpc-Keeps, bitwise-Keeps, carry-Keeps, andor_p-Keeps, invert-Keeps, getp-Keeps, putp-Keeps,
  out-Keeps, read_in-Keeps, cex-Keeps,
}
use idli_v.Sim.Registers.Load.{ReadsWords, shift-Keeps, ld-Keeps, ldstm-Keeps}

kept_cin-le : (b : Bool) (cin : ℕ) → cin ≤ 1 → (if b then cin else 0) ≤ 1
kept_cin-le true cin h = h
kept_cin-le false cin h = omega arith

module _ {E : Type 0} where
  straight-Keeps : {m : M E (Unit {0})} → Keeps m → Keeps (straight m)
  straight-Keeps h = >>=-Ensures h λ u w. pure-Ensures none tt

  check_run-Keeps : Keeps {E = E} check_run
  unfolding check_run
  check_run-Keeps = record {
    post = λ s v. elim (Bool-cases (is_idle s.cond)) [
      | inl e ↦ rw e (v, tt)
      | inr e ↦ rw e (IsValid-regs s _ v refl v.cin_bit refl, tt)
    ];
  }

  finish-IsValid :
      (valid : Bool) (s : Sim E) → IsValid s → IsValid (step_carry valid (step_count s))
  unfolding step_carry step_count
  finish-IsValid valid s v = IsValid-regs s _ v refl (kept_cin-le _ s.cin v.cin_bit) refl

module _ {E : Type 0} (cb : Callback E) where
  set_pc-IsValid :
      (target : Option ℕ) (next : ℕ) (s : Sim E) → IsValid s → IsValid (set_pc cb target next s)
  set_pc-IsValid none next s v = IsValid-regs s _ v refl v.cin_bit refl
  set_pc-IsValid (some zero) next s v = IsValid-regs s _ v refl v.cin_bit refl
  set_pc-IsValid (some (suc n)) next s v = IsValid-regs s _ v refl v.cin_bit refl

module _ {E : Type 0} (cb : Callback E) (h : ReadsWords cb) where
  exec-Keeps : (k : Mnem) (o : Ops) (mask : Option ℕ) → Keeps (exec cb k o mask)
  unfolding exec
  exec-Keeps Mnem.add o mask = straight-Keeps (add_sub-Keeps cb Mnem.add o)
  exec-Keeps Mnem.sub o mask = straight-Keeps (add_sub-Keeps cb Mnem.sub o)
  exec-Keeps Mnem.and o mask = straight-Keeps (bitwise-Keeps cb Mnem.and o)
  exec-Keeps Mnem.andn o mask = straight-Keeps (bitwise-Keeps cb Mnem.andn o)
  exec-Keeps Mnem.or o mask = straight-Keeps (bitwise-Keeps cb Mnem.or o)
  exec-Keeps Mnem.xor o mask = straight-Keeps (bitwise-Keeps cb Mnem.xor o)
  exec-Keeps Mnem.ld o mask = straight-Keeps (ld-Keeps cb h Mnem.ld o)
  exec-Keeps Mnem.st o mask = straight-Keeps (st-Keeps cb Mnem.st o)
  exec-Keeps Mnem.ldm o mask = straight-Keeps (ldstm-Keeps cb h Mnem.ldm o)
  exec-Keeps Mnem.stm o mask = straight-Keeps (ldstm-Keeps cb h Mnem.stm o)
  exec-Keeps Mnem.ld_inc o mask = straight-Keeps (ld-Keeps cb h Mnem.ld_inc o)
  exec-Keeps Mnem.st_inc o mask = straight-Keeps (st-Keeps cb Mnem.st_inc o)
  exec-Keeps Mnem.inc_ld o mask = straight-Keeps (ld-Keeps cb h Mnem.inc_ld o)
  exec-Keeps Mnem.inc_st o mask = straight-Keeps (st-Keeps cb Mnem.inc_st o)
  exec-Keeps Mnem.ld_dec o mask = straight-Keeps (ld-Keeps cb h Mnem.ld_dec o)
  exec-Keeps Mnem.st_dec o mask = straight-Keeps (st-Keeps cb Mnem.st_dec o)
  exec-Keeps Mnem.dec_ld o mask = straight-Keeps (ld-Keeps cb h Mnem.dec_ld o)
  exec-Keeps Mnem.dec_st o mask = straight-Keeps (st-Keeps cb Mnem.dec_st o)
  exec-Keeps Mnem.inc o mask = straight-Keeps (inc_dec-Keeps cb Mnem.inc o)
  exec-Keeps Mnem.dec o mask = straight-Keeps (inc_dec-Keeps cb Mnem.dec o)
  exec-Keeps Mnem.srl o mask = straight-Keeps (shift-Keeps cb Mnem.srl o)
  exec-Keeps Mnem.sra o mask = straight-Keeps (shift-Keeps cb Mnem.sra o)
  exec-Keeps Mnem.ror o mask = straight-Keeps (shift-Keeps cb Mnem.ror o)
  exec-Keeps Mnem.rol o mask = straight-Keeps (shift-Keeps cb Mnem.rol o)
  exec-Keeps Mnem.not o mask = straight-Keeps (invert-Keeps cb o)
  exec-Keeps Mnem.urx o mask = straight-Keeps (urx-Keeps cb o)
  exec-Keeps Mnem.getp o mask = straight-Keeps (getp-Keeps cb o)
  exec-Keeps Mnem.eq o mask = straight-Keeps (cmp-Keeps cb Mnem.eq o)
  exec-Keeps Mnem.ne o mask = straight-Keeps (cmp-Keeps cb Mnem.ne o)
  exec-Keeps Mnem.lt o mask = straight-Keeps (cmp-Keeps cb Mnem.lt o)
  exec-Keeps Mnem.ltu o mask = straight-Keeps (cmp-Keeps cb Mnem.ltu o)
  exec-Keeps Mnem.ge o mask = straight-Keeps (cmp-Keeps cb Mnem.ge o)
  exec-Keeps Mnem.geu o mask = straight-Keeps (cmp-Keeps cb Mnem.geu o)
  exec-Keeps Mnem.any o mask = straight-Keeps (cmp-Keeps cb Mnem.any o)
  exec-Keeps Mnem.inp o mask = straight-Keeps (read_in-Keeps cb Mnem.inp o)
  exec-Keeps Mnem.eqx o mask = straight-Keeps (cmp-Keeps cb Mnem.eqx o)
  exec-Keeps Mnem.nex o mask = straight-Keeps (cmp-Keeps cb Mnem.nex o)
  exec-Keeps Mnem.ltx o mask = straight-Keeps (cmp-Keeps cb Mnem.ltx o)
  exec-Keeps Mnem.ltux o mask = straight-Keeps (cmp-Keeps cb Mnem.ltux o)
  exec-Keeps Mnem.gex o mask = straight-Keeps (cmp-Keeps cb Mnem.gex o)
  exec-Keeps Mnem.geux o mask = straight-Keeps (cmp-Keeps cb Mnem.geux o)
  exec-Keeps Mnem.anyx o mask = straight-Keeps (cmp-Keeps cb Mnem.anyx o)
  exec-Keeps Mnem.inpx o mask = straight-Keeps (read_in-Keeps cb Mnem.inpx o)
  exec-Keeps Mnem.addpc o mask = straight-Keeps (addpc-Keeps cb o)
  exec-Keeps Mnem.b o mask = jmp-Keeps cb Mnem.b o
  exec-Keeps Mnem.j o mask = jmp-Keeps cb Mnem.j o
  exec-Keeps Mnem.bl o mask = jmp-Keeps cb Mnem.bl o
  exec-Keeps Mnem.jl o mask = jmp-Keeps cb Mnem.jl o
  exec-Keeps Mnem.in_pin o mask = straight-Keeps (read_in-Keeps cb Mnem.in_pin o)
  exec-Keeps Mnem.out o mask = straight-Keeps (out-Keeps cb Mnem.out o)
  exec-Keeps Mnem.outn o mask = straight-Keeps (out-Keeps cb Mnem.outn o)
  exec-Keeps Mnem.outp o mask = straight-Keeps (out-Keeps cb Mnem.outp o)
  exec-Keeps Mnem.utx o mask = straight-Keeps (utx-Keeps cb o)
  exec-Keeps Mnem.carry o mask = straight-Keeps (carry-Keeps cb o)
  exec-Keeps Mnem.putp o mask = straight-Keeps (putp-Keeps cb o)
  exec-Keeps Mnem.andp o mask = straight-Keeps (andor_p-Keeps cb op_and o)
  exec-Keeps Mnem.orp o mask = straight-Keeps (andor_p-Keeps cb op_or o)
  exec-Keeps Mnem.cex o mask = straight-Keeps (cex-Keeps cb mask)

  exec_item-Keeps : (item : Item) → Keeps (exec_item cb item)
  exec_item-Keeps (instr i) = exec-Keeps i.mnem i.ops i.cex_mask
  exec_item-Keeps (raw d) = raise-Ensures key_error

  run_item-Keeps : (item : Item) → Keeps (run_item cb item)
  unfolding run_item
  run_item-Keeps item =
      let move : ℕ → M E (Unit {0}) =
        λ pc. modify (λ s. record s { pc = pc + (item_size item - 1) }) in
      let finish : ℕ → Option ℕ → M E (Unit {0}) = λ pc target. modify (λ s.
        step_carry (keeps_carry item) (step_count (set_pc cb target (pc + item_size item) s))) in
      let body : ℕ → Bool → M E (Unit {0}) =
        λ pc run. (if run then exec_item cb item else pure none) >>= finish pc in
      >>=-Ensures {f = λ pc. move pc >> (check_run >>= body pc)} (any_gets (λ s. s.pc)) λ pc u.
        >>=-Ensures {f = λ u. check_run >>= body pc}
          (modify-Keeps _ (λ s v. IsValid-regs s _ v refl v.cin_bit refl))
          λ u w. >>=-Ensures {f = body pc} check_run-Keeps λ run u.
            >>=-Ensures {f = finish pc}
              (if-Ensures run (exec_item-Keeps item) (pure-Ensures none tt))
              λ target u. modify-Keeps _ (λ s v.
                finish-IsValid (keeps_carry item) (set_pc cb target (pc + item_size item) s)
                  (set_pc-IsValid cb target (pc + item_size item) s v))

tick-Keeps :
    {E : Type 0} (cb : Callback E) → ReadsWords cb → (given : Option Item) → Keeps (tick cb given)
unfolding tick
tick-Keeps cb h (some item) = run_item-Keeps cb h item
tick-Keeps cb h none = record {
  post = λ s v.
      (>>=-Ensures {f = run_item cb} (call-Ensures cb (cb.fetch s.pc) (λ e e' a p. tt))
          (λ item u. run_item-Keeps cb h item)).post
        s v;
}

abbrev is_word : Option ℕ → Bool
is_word none = true
is_word (some v) = ltb v 65536

init-word : {E : Type 0} (e : E) (i v : ℕ) → get_elem? (init e).regs i ≡ some (some v) → v < 2 ^ 16
unfolding init
init-word e i v h =
    let small : is_word (some v) ≡ true = all-get_elem? is_word (init e).regs i refl h in
    ground (arith, small)

init-IsValid : {E : Type 0} (e : E) → IsValid (init e)
unfolding init
init-IsValid e = record {
  regs_length = refl;
  regs_zero = refl;
  regs_word = init-word e;
  cin_bit = omega arith;
  pins_length = refl;
}

-- A series of calls of `tick`, each with an instruction or without.
abbrev pub ticks : {E : Type 0} → Callback E → List (Option Item) → M E (Unit {0})
ticks cb [] = pure tt
ticks cb (given ∷ rest) = tick cb given >> ticks cb rest

ticks-Keeps :
    {E : Type 0} (cb : Callback E)
    → ReadsWords cb
    → (given : List (Option Item)) → Keeps (ticks cb given)
ticks-Keeps cb h [] = pure-Ensures tt tt
ticks-Keeps cb h (x ∷ rest) = >>=-Ensures (tick-Keeps cb h x) λ u w. ticks-Keeps cb h rest

Post-ok :
    {E A : Type 0} (r : Result (A × Sim E)) (a : A) (s : Sim E)
    → r ≡ ok (a, s)
    → Post r Anything
    → IsValid s
Post-ok r a s e h = (subst (λ x. Post x Anything) e h).0

-- Whatever the instructions are, given or fetched, if a memory gives words, every state that a
-- series of ticks reaches from the initial one is valid: sixteen registers, the zero register
-- zero, no register above 16 bits, a carry of one bit, and four output pins.
pub ticks-IsValid :
    {E : Type 0} (cb : Callback E) (given : List (Option Item)) (e : E) (s : Sim E)
    → ReadsWords cb
    → ticks cb given (init e) ≡ ok (tt, s)
    → IsValid s
ticks-IsValid cb given e s h p =
    Post-ok (ticks cb given (init e)) tt s p
      ((ticks-Keeps cb h given).post (init e) (init-IsValid e))
