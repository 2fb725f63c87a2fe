-- ===== src/Sim/Window/Exec.antt =====
-- The instructions of scripts/sim.py that leave the counter.
use idli_v.Prelude.{ℕ, ◌≡◌, arith, Bool, true, false, Option, none, key_error}
use idli_v.Isa.Mnem.{Mnem}
use idli_v.Isa.Instr.{Ops, Item, instr, raw}
use idli_v.Sim.State.{Callback, M}
use idli_v.Sim.Tick.{straight, exec, exec_item}
use idli_v.Sim.Window.{Keeps, >>=-Keeps, pure-Keeps, raise-Keeps}
use idli_v.Sim.Window.Methods.{
  add_sub-Keeps, addpc-Keeps, bitwise-Keeps, cex-Keeps, cmp-Keeps, getp-Keeps, inc_dec-Keeps,
  invert-Keeps, jmp-Keeps, ld-Keeps, ldstm-Keeps, out-Keeps, putp-Keeps, read_in-Keeps, shift-Keeps,
  st-Keeps, urx-Keeps, utx-Keeps,
}

-- Whether the instruction starts the counter.
abbrev pub opens : Mnem → Bool
opens Mnem.carry = true
opens Mnem.andp = true
opens Mnem.orp = true
opens _ = false

abbrev pub item_opens : Item → Bool
item_opens (instr i) = opens i.mnem
item_opens (raw d) = false

module _ {E : Type 0} (cb : Callback E) where
  straight-Keeps : {m : M E (Unit {0})} → Keeps m → Keeps (straight m)
  straight-Keeps h = >>=-Keeps h λ u. pure-Keeps none

  exec-Keeps : (k : Mnem) (o : Ops) (mask : Option ℕ) → opens k ≡ false → Keeps (exec cb k o mask)
  unfolding exec
  exec-Keeps Mnem.add o mask h = straight-Keeps (add_sub-Keeps cb Mnem.add o)
  exec-Keeps Mnem.sub o mask h = straight-Keeps (add_sub-Keeps cb Mnem.sub o)
  exec-Keeps Mnem.and o mask h = straight-Keeps (bitwise-Keeps cb Mnem.and o)
  exec-Keeps Mnem.andn o mask h = straight-Keeps (bitwise-Keeps cb Mnem.andn o)
  exec-Keeps Mnem.or o mask h = straight-Keeps (bitwise-Keeps cb Mnem.or o)
  exec-Keeps Mnem.xor o mask h = straight-Keeps (bitwise-Keeps cb Mnem.xor o)
  exec-Keeps Mnem.ld o mask h = straight-Keeps (ld-Keeps cb Mnem.ld o)
  exec-Keeps Mnem.st o mask h = straight-Keeps (st-Keeps cb Mnem.st o)
  exec-Keeps Mnem.ldm o mask h = straight-Keeps (ldstm-Keeps cb Mnem.ldm o)
  exec-Keeps Mnem.stm o mask h = straight-Keeps (ldstm-Keeps cb Mnem.stm o)
  exec-Keeps Mnem.ld_inc o mask h = straight-Keeps (ld-Keeps cb Mnem.ld_inc o)
  exec-Keeps Mnem.st_inc o mask h = straight-Keeps (st-Keeps cb Mnem.st_inc o)
  exec-Keeps Mnem.inc_ld o mask h = straight-Keeps (ld-Keeps cb Mnem.inc_ld o)
  exec-Keeps Mnem.inc_st o mask h = straight-Keeps (st-Keeps cb Mnem.inc_st o)
  exec-Keeps Mnem.ld_dec o mask h = straight-Keeps (ld-Keeps cb Mnem.ld_dec o)
  exec-Keeps Mnem.st_dec o mask h = straight-Keeps (st-Keeps cb Mnem.st_dec o)
  exec-Keeps Mnem.dec_ld o mask h = straight-Keeps (ld-Keeps cb Mnem.dec_ld o)
  exec-Keeps Mnem.dec_st o mask h = straight-Keeps (st-Keeps cb Mnem.dec_st o)
  exec-Keeps Mnem.inc o mask h = straight-Keeps (inc_dec-Keeps cb Mnem.inc o)
  exec-Keeps Mnem.dec o mask h = straight-Keeps (inc_dec-Keeps cb Mnem.dec o)
  exec-Keeps Mnem.srl o mask h = straight-Keeps (shift-Keeps cb Mnem.srl o)
  exec-Keeps Mnem.sra o mask h = straight-Keeps (shift-Keeps cb Mnem.sra o)
  exec-Keeps Mnem.ror o mask h = straight-Keeps (shift-Keeps cb Mnem.ror o)
  exec-Keeps Mnem.rol o mask h = straight-Keeps (shift-Keeps cb Mnem.rol o)
  exec-Keeps Mnem.not o mask h = straight-Keeps (invert-Keeps cb o)
  exec-Keeps Mnem.urx o mask h = straight-Keeps (urx-Keeps cb o)
  exec-Keeps Mnem.getp o mask h = straight-Keeps (getp-Keeps cb o)
  exec-Keeps Mnem.eq o mask h = straight-Keeps (cmp-Keeps cb Mnem.eq o)
  exec-Keeps Mnem.ne o mask h = straight-Keeps (cmp-Keeps cb Mnem.ne o)
  exec-Keeps Mnem.lt o mask h = straight-Keeps (cmp-Keeps cb Mnem.lt o)
  exec-Keeps Mnem.ltu o mask h = straight-Keeps (cmp-Keeps cb Mnem.ltu o)
  exec-Keeps Mnem.ge o mask h = straight-Keeps (cmp-Keeps cb Mnem.ge o)
  exec-Keeps Mnem.geu o mask h = straight-Keeps (cmp-Keeps cb Mnem.geu o)
  exec-Keeps Mnem.any o mask h = straight-Keeps (cmp-Keeps cb Mnem.any o)
  exec-Keeps Mnem.inp o mask h = straight-Keeps (read_in-Keeps cb Mnem.inp o)
  exec-Keeps Mnem.eqx o mask h = straight-Keeps (cmp-Keeps cb Mnem.eqx o)
  exec-Keeps Mnem.nex o mask h = straight-Keeps (cmp-Keeps cb Mnem.nex o)
  exec-Keeps Mnem.ltx o mask h = straight-Keeps (cmp-Keeps cb Mnem.ltx o)
  exec-Keeps Mnem.ltux o mask h = straight-Keeps (cmp-Keeps cb Mnem.ltux o)
  exec-Keeps Mnem.gex o mask h = straight-Keeps (cmp-Keeps cb Mnem.gex o)
  exec-Keeps Mnem.geux o mask h = straight-Keeps (cmp-Keeps cb Mnem.geux o)
  exec-Keeps Mnem.anyx o mask h = straight-Keeps (cmp-Keeps cb Mnem.anyx o)
  exec-Keeps Mnem.inpx o mask h = straight-Keeps (read_in-Keeps cb Mnem.inpx o)
  exec-Keeps Mnem.addpc o mask h = straight-Keeps (addpc-Keeps cb o)
  exec-Keeps Mnem.b o mask h = jmp-Keeps cb Mnem.b o
  exec-Keeps Mnem.j o mask h = jmp-Keeps cb Mnem.j o
  exec-Keeps Mnem.bl o mask h = jmp-Keeps cb Mnem.bl o
  exec-Keeps Mnem.jl o mask h = jmp-Keeps cb Mnem.jl o
  exec-Keeps Mnem.in_pin o mask h = straight-Keeps (read_in-Keeps cb Mnem.in_pin o)
  exec-Keeps Mnem.out o mask h = straight-Keeps (out-Keeps cb Mnem.out o)
  exec-Keeps Mnem.outn o mask h = straight-Keeps (out-Keeps cb Mnem.outn o)
  exec-Keeps Mnem.outp o mask h = straight-Keeps (out-Keeps cb Mnem.outp o)
  exec-Keeps Mnem.utx o mask h = straight-Keeps (utx-Keeps cb o)
  exec-Keeps Mnem.carry o mask h = absurd (ground (arith, h))
  exec-Keeps Mnem.putp o mask h = straight-Keeps (putp-Keeps cb o)
  exec-Keeps Mnem.andp o mask h = absurd (ground (arith, h))
  exec-Keeps Mnem.orp o mask h = absurd (ground (arith, h))
  exec-Keeps Mnem.cex o mask h = straight-Keeps (cex-Keeps cb mask)

  pub exec_item-Keeps : (item : Item) → item_opens item ≡ false → Keeps (exec_item cb item)
  exec_item-Keeps (instr i) h = exec-Keeps i.mnem i.ops i.cex_mask h
  exec_item-Keeps (raw d) h = raise-Keeps key_error
