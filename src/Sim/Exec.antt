-- ===== src/Sim/Exec.antt =====
-- The methods of `Sim` that run an instruction, one for each. The operands are the keyword
-- arguments; one that is missing raises when its value is used.
use idli_v.Prelude.{
  ℕ, zero, suc, ◌+◌, ◌-◌, ◌*◌, ◌/◌, ◌%◌, ◌^◌, Bool, true, false, not, ◌&&◌, ◌||◌, Option, none,
  some, ℤ, pos, negsuc, low16, bit16, ◌+ℤ◌, ltb_ℤ, bit_and, bit_or, bit_xor, ltb, leb, ◌==◌,
  if◌then◌else◌, exception, type_error,
}
use idli_v.Isa.Mnem.{Mnem, has_char, starts_with, ends_with}
use idli_v.Isa.Instr.{Ops, Imm, int, sp, lr}
use idli_v.Sim.State.{
  Callback, CountOp, op_carry, Sim, M, pure, raise, gets, modify, read_reg, write_reg, write_pred,
  write_cond, write_out_pin, write_mem, call, ◌>>=◌, ◌>>◌,
}

abbrev pub is_carry : Option CountOp → Bool
is_carry (some op_carry) = true
is_carry _ = false

-- `self.count_op == 'carry' and 0 < self.num_count < self.max_count`
abbrev pub carries : {E : Type 0} → Sim E → Bool
carries s =
    is_carry s.count_op && (ltb_ℤ (pos 0) s.num_count && ltb_ℤ s.num_count (pos s.max_count))

-- `_u2s`
unfoldable pub u2s : ℤ → ℤ
u2s z = if low16 z / 2 ^ 15 == 1 then z +ℤ negsuc (2 ^ 16 - 1) else z

-- What a comparison writes to the predicate, by the mnemonic without its `x`.
unfoldable pub compare_values : Mnem → ℕ → ℕ → Bool
unfolding u2s
compare_values Mnem.eq l r = l == r
compare_values Mnem.eqx l r = l == r
compare_values Mnem.ne l r = not (l == r)
compare_values Mnem.nex l r = not (l == r)
compare_values Mnem.lt l r = ltb_ℤ (u2s (pos l)) (u2s (pos r))
compare_values Mnem.ltx l r = ltb_ℤ (u2s (pos l)) (u2s (pos r))
compare_values Mnem.ltu l r = ltb l r
compare_values Mnem.ltux l r = ltb l r
compare_values Mnem.ge l r = not (ltb_ℤ (u2s (pos l)) (u2s (pos r)))
compare_values Mnem.gex l r = not (ltb_ℤ (u2s (pos l)) (u2s (pos r)))
compare_values Mnem.geu l r = leb r l
compare_values Mnem.geux l r = leb r l
compare_values Mnem.any l r = not (bit_and l r == 0)
compare_values Mnem.anyx l r = not (bit_and l r == 0)
compare_values _ l r = false

-- The results of AND, ANDN, OR and XOR; the right side is any integer, and only its low 16 bits
-- show in the result.
unfoldable pub bitwise_value : Mnem → ℕ → ℕ → ℕ
bitwise_value Mnem.and l r = bit_and l r % 2 ^ 16
bitwise_value Mnem.andn l r = bit_and l (2 ^ 16 - 1 - r) % 2 ^ 16
bitwise_value Mnem.or l r = bit_or l r % 2 ^ 16
bitwise_value _ l r = bit_xor l r % 2 ^ 16

-- The results of SRL, SRA, ROR and ROL for a 16-bit value.
unfoldable pub shift_value : Mnem → ℕ → ℕ → ℕ
shift_value Mnem.srl v cin = bit_or (v / 2) (cin * 2 ^ 15)
shift_value Mnem.sra v cin = bit_or (v / 2) (cin * 2 ^ 15)
shift_value Mnem.ror v cin = bit_or v (v % 2 * 2 ^ 16) / 2
shift_value _ v cin = bit_or (v * 2) (v * 2 / 2 ^ 16) % 2 ^ 16

abbrev pub inc_value : Mnem → ℤ
inc_value Mnem.inc = pos 1
inc_value _ = negsuc 0

abbrev pub is_given : Option ℕ → Bool
is_given none = false
is_given (some v) = true

-- `a == b`
abbrev pub same_reg : Option ℕ → Option ℕ → Bool
same_reg (some a) (some b) = a == b
same_reg none none = true
same_reg _ _ = false

abbrev pub rhs_of : Mnem → ℤ → ℤ
rhs_of Mnem.sub z = pos (2 ^ 16 - 1 - low16 z)
rhs_of _ z = z

abbrev pub first_cin : Mnem → ℕ
first_cin Mnem.add = 0
first_cin _ = 1

abbrev pub moves : Mnem → Bool
moves k = has_char b'+' k || has_char b'-' k

abbrev pub moves_after : Mnem → Bool
moves_after k = ends_with b'+' k || ends_with b'-' k

abbrev pub shift_cin : Mnem → ℕ → ℕ
shift_cin Mnem.srl v = 0
shift_cin _ v = v / 2 ^ 15 % 2

abbrev pub sets_cin : Mnem → Bool
sets_cin Mnem.srl = true
sets_cin Mnem.sra = true
sets_cin _ = false

module _ {E : Type 0} where
  -- `self.regs[c] if c != isa.REGS['sp'] else imm`
  abbrev pub imm_value : Option Imm → M E ℤ
  imm_value (some (int z)) = pure z
  imm_value _ = raise type_error

  unfoldable pub value_c : Option ℕ → Option Imm → M E ℤ
  unfolding read_reg
  value_c none imm = raise type_error
  value_c (some r) imm = if r == sp then imm_value imm else (do v ← read_reg (some r); pure (pos v))

  unfoldable pub offset_of : Mnem → Ops → M E ℤ
  unfolding has_char
  offset_of k o =
      if is_given o.c then value_c o.c o.imm else pure (if has_char b'+' k then pos 1 else negsuc 0)

  abbrev pub need : Option ℕ → M E ℕ
  need none = raise type_error
  need (some v) = pure v

  abbrev pub set_cin : ℕ → M E (Unit {0})
  set_cin v = modify (λ s. record s { cin = v })

module _ {E : Type 0} (cb : Callback E) where
  -- `_add_sub`
  unfoldable pub add_sub : Mnem → Ops → M E (Unit {0})
  add_sub k o = do
    lhs ← read_reg o.b
    rhs ← value_c o.c o.imm
    cin ← gets (λ s. if carries s then s.cin else first_cin k)
    let value = pos lhs +ℤ rhs_of k rhs +ℤ pos cin
    set_cin (bit16 value)
    write_reg cb o.a (low16 value)

  -- `_cmp`
  unfoldable pub cmp : Mnem → Ops → M E (Unit {0})
  unfolding ends_with
  cmp k o = do
    lhs ← read_reg o.b
    rhs ← value_c o.c o.imm
    write_pred cb (compare_values k lhs (low16 rhs))
    if ends_with b'x' k then write_cond cb (some 3) else pure tt

  -- `_jmp`, which returns the target.
  unfoldable pub jmp : Mnem → Ops → M E (Option ℕ)
  unfolding starts_with ends_with
  jmp k o = do
    pc ← gets (λ s. s.pc)
    rhs ← value_c o.c o.imm
    let lhs = if starts_with b'b' k then pc else 0
    let offset = if starts_with b'b' k then u2s rhs else rhs
    (if ends_with b'l' k then write_reg cb (some lr) ((pc + 1) % 2 ^ 16) else pure tt)
    pure (some (low16 (pos lhs +ℤ offset)))

  -- `_utx` and `_urx`
  unfoldable pub utx : Ops → M E (Unit {0})
  utx o = do
    value ← value_c o.c o.imm
    modify (λ s. record s { env = cb.write_uart (low16 value) s.env })

  unfoldable pub urx : Ops → M E (Unit {0})
  urx o = do value ← call cb cb.read_uart; write_reg cb o.a (low16 value)

  -- `_inc_dec`
  unfoldable pub inc_dec : Mnem → Ops → M E (Unit {0})
  inc_dec k o = do lhs ← read_reg o.b; write_reg cb o.a (low16 (pos lhs +ℤ inc_value k))

  -- `_st` and `_ld`: the base is moved first, and `addr` is the address before or after that.
  unfoldable pub st : Mnem → Ops → M E (Unit {0})
  unfolding has_char ends_with offset_of
  st k o = do
    base ← read_reg o.b
    offset ← offset_of k o
    let final_addr = low16 (pos base +ℤ offset)
    let addr = if moves_after k then base else final_addr
    (if moves k then write_reg cb o.b final_addr else pure tt)
    value ← read_reg o.a
    write_mem cb addr value

  unfoldable pub ld : Mnem → Ops → M E (Unit {0})
  unfolding has_char ends_with offset_of
  ld k o = do
    base ← read_reg o.b
    offset ← offset_of k o
    let final_addr = low16 (pos base +ℤ offset)
    let addr = if moves_after k then base else final_addr
    (if moves k && not (same_reg o.a o.b) then write_reg cb o.b final_addr else pure tt)
    value ← call cb (cb.read_mem addr)
    write_reg cb o.a value

  -- One round of the loop of `_ldstm`, for register `r` at `addr`.
  unfoldable pub ldstm_one : Mnem → ℕ → ℕ → M E (Unit {0})
  ldstm_one Mnem.stm r addr = do value ← read_reg (some r); write_mem cb addr value
  ldstm_one _ r addr = do value ← call cb (cb.read_mem addr); write_reg cb (some r) value

  -- `while True`, on fuel: the range wraps, so sixteen rounds reach every register.
  unfoldable pub ldstm_loop : ℕ → Mnem → ℕ → ℕ → ℕ → M E (Unit {0})
  ldstm_loop zero k r s addr = raise exception
  ldstm_loop (suc fuel) k r s addr =
      let rest = ldstm_loop fuel k ((r + 1) % 16) s ((addr + 1) % 2 ^ 16) in
      ldstm_one k r addr >> (if r == s then pure tt else rest)

  -- `_ldstm`
  unfoldable pub ldstm : Mnem → Ops → M E (Unit {0})
  unfolding ldstm_loop
  ldstm k o = do addr ← read_reg o.b; r ← need o.r; s ← need o.s; ldstm_loop 16 k r s addr

  -- `_addpc`
  unfoldable pub addpc : Ops → M E (Unit {0})
  addpc o = do
    pc ← gets (λ s. s.pc)
    rhs ← value_c o.c o.imm
    write_reg cb o.a (low16 (pos pc +ℤ rhs))

  -- `_bitwise`
  unfoldable pub bitwise : Mnem → Ops → M E (Unit {0})
  bitwise k o = do
    lhs ← read_reg o.b
    rhs ← value_c o.c o.imm
    write_reg cb o.a (bitwise_value k lhs (low16 rhs))

  -- `_shift`; SRL and SRA shift their low bit into the carry.
  unfoldable pub shift : Mnem → Ops → M E (Unit {0})
  shift k o = do
    reg ← read_reg o.b
    let value = reg % 2 ^ 16
    cin ← gets (λ s. if carries s then s.cin else shift_cin k value)
    (if sets_cin k then set_cin (value % 2) else pure tt)
    write_reg cb o.a (shift_value k value cin)

  -- `_carry` and `_andor_p`: the count starts below zero, for the tick that it is set in.
  unfoldable pub carry : Ops → M E (Unit {0})
  carry o = do
    j ← need o.j
    modify
        (λ s. record s { num_count = negsuc 0; max_count = j; count_op = some op_carry; cin = 0 })

  unfoldable pub andor_p : CountOp → Ops → M E (Unit {0})
  andor_p op o = do
    j ← need o.j
    modify (λ s. record s { num_count = negsuc 0; max_count = j; count_op = some op })

  -- `_not`
  unfoldable pub invert : Ops → M E (Unit {0})
  invert o = do v ← read_reg o.b; write_reg cb o.a (low16 (negsuc v))

  -- `_getp` and `_putp`
  unfoldable pub getp : Ops → M E (Unit {0})
  getp o = do p ← gets (λ s. s.pred); write_reg cb o.a (if p then 1 else 0)

  unfoldable pub putp : Ops → M E (Unit {0})
  putp o = do value ← value_c o.c o.imm; write_pred cb (low16 value % 2 == 1)

  -- `_out`
  abbrev pub out_value : Mnem → Ops → M E ℕ
  out_value Mnem.outp o = gets (λ s. if s.pred then 1 else 0)
  out_value Mnem.outn o = do value ← value_c o.c o.imm; pure (1 - low16 value % 2)
  out_value _ o = do value ← value_c o.c o.imm; pure (low16 value % 2)

  unfoldable pub out : Mnem → Ops → M E (Unit {0})
  out k o = do value ← out_value k o; n ← need o.n; write_out_pin cb n value

  -- `_in`
  abbrev pub store_pin : Mnem → Ops → ℕ → M E (Unit {0})
  store_pin Mnem.in_pin o value = write_reg cb o.a value
  store_pin Mnem.inpx o value = write_pred cb (value == 1) >> write_cond cb (some 3)
  store_pin _ o value = write_pred cb (value == 1)

  unfoldable pub read_in : Mnem → Ops → M E (Unit {0})
  read_in k o = do n ← need o.n; value ← call cb (cb.read_pin n); store_pin k o (value % 2)

  -- `_cex`; `tick` passes the mask.
  unfoldable pub cex : Option ℕ → M E (Unit {0})
  cex mask = write_cond cb mask
