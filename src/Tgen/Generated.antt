-- ===== src/Tgen/Generated.antt =====
-- `rand_instr` of scripts/tgen.py as a whole.
use idli_v.Prelude.{
  ℕ, zero, suc, ◌-◌, ◌^◌, ◌<◌, ◌≡◌, refl, sym, ap, subst, ◌∙◌, arith, Bool, true, false, ◌&&◌, List,
  [], ◌∷◌, Option, none, some, Result, ok, inl, inr, Bool-cases, leb, get_elem?, ◌==◌, ==→eq,
}
use idli_v.Isa.Mnem.{Mnem}
use idli_v.Isa.Encoding.{Operand, count, pattern}
use idli_v.Isa.Instr.{Cond, cond_t, is_cmpx, Instruction, Ops, get_op}
use idli_v.Isa.Instr.Encode.{Fits}
use idli_v.Tgen.{Random, State, check_space}
use idli_v.Tgen.Load.{AllKnown}
use idli_v.Tgen.Choose.{
  pending, sets_cond, is_cex, pick_mnem, choose_mnem, with_mask, set_cond, conclude, rand_instr,
  pick_redirect,
}
use idli_v.Tgen.Operands.{Progress, InRange, Kept, ImmOf}
use idli_v.Tgen.Target.{ReachesIf, addresses}
use idli_v.Tgen.Final.{HasRoom}
use idli_v.Tgen.Whole.{pick_ops-Chosen}

pub AllKnown-AreKnown :
    (n : ℕ) (regs : List (Option ℕ))
    → AllKnown n regs
    → (r : ℕ) → r < n
    → (v : ℕ) × (get_elem? regs r ≡ some (some v)) × (v < 2 ^ 16)
AllKnown-AreKnown zero regs h r lt = absurd (omega arith)
AllKnown-AreKnown (suc n) regs h r lt = elim (Bool-cases (r == n)) [
  | inl e ↦
      subst (λ i. (v : ℕ) × (get_elem? regs i ≡ some (some v)) × (v < 2 ^ 16)) (sym (==→eq r n e))
        h.0
  | inr e ↦ AllKnown-AreKnown n regs h.1 r (ground (arith, e, lt))
]

abbrev pub first_cond : List Cond → Option Cond
first_cond [] = none
first_cond (x ∷ conds) = some x

Fits-m : (v : Option ℕ) → Fits 8 v → (m : ℕ) × (v ≡ some m)
Fits-m none f = absurd f
Fits-m (some m) f = (m, refl)

cex_m : (k : Mnem) (o : Ops) → is_cex k ≡ true → Progress k [] o → (m : ℕ) × (o.m ≡ some m)
unfolding pattern
cex_m Mnem.cex o h p = Fits-m o.m (p.fits Operand.m)
cex_m _ o h p = absurd (cc h)

module _ {R : Type 0} (random : Random R) (mnems : List Mnem) (weights : List ℕ) where
  -- The state behind so many choices of a mnemonic.
  abbrev pub after_picks : ℕ → State R → State R
  after_picks zero t = t
  after_picks (suc n) t = after_picks n (pick_mnem random mnems weights t).1

  -- Whether the choice cannot be taken, since it would set conditions where some are pending.
  abbrev pub is_barred : State R → Bool
  is_barred t = pending t.cond && sets_cond (pick_mnem random mnems weights t).0

  Picks : ℕ → ℕ → State R → Type 0
  Picks fuel pc t =
      (k : Mnem) × (t' : State R) × (choose_mnem random mnems weights fuel pc t ≡ ok (k, t'))
      × Kept t t'

  taken : (fuel pc : ℕ) (t : State R) → is_barred t ≡ false → Picks (suc fuel) pc t
  unfolding choose_mnem Picks
  taken fuel pc t h =
      let x = pick_mnem random mnems weights t in
      let y = pick_redirect random mnems weights x.1 in
      elim (Bool-cases (leb (0xffff - 3) pc)) [
        | inl e ↦ (y.0, y.1, rw (h, e) refl, (refl, refl))
        | inr e ↦ elim (Bool-cases (check_space t.used_addrs pc 16)) [
          | inl f ↦ (x.0, x.1, rw (h, e, f) refl, (refl, refl))
          | inr f ↦ (y.0, y.1, rw (h, e, f) refl, (refl, refl))
        ]
      ]

  choose_mnem-runs :
      (n fuel pc : ℕ) (t : State R)
      → n < fuel
      → is_barred (after_picks n t) ≡ false
      → Picks fuel pc t
  unfolding choose_mnem Picks
  choose_mnem-runs n zero pc t lt h = absurd (omega arith)
  choose_mnem-runs zero (suc fuel) pc t lt h = taken fuel pc t h
  choose_mnem-runs (suc n) (suc fuel) pc t lt h = elim (Bool-cases (is_barred t)) [
    | inl e ↦
        let (k, t', runs, kept) =
          choose_mnem-runs n fuel pc (pick_mnem random mnems weights t).1 (omega (arith, lt)) h in
        (k, t', rw e runs, kept)
    | inr e ↦ taken fuel pc t e
  ]

  -- What the end of `rand_instr` leaves of an instruction and of the state.
  record Leaves (i : Instruction) (cond : Option Cond) (t : State R)
      (result : Result (Instruction × State R)) : Type 0 where
    out : Instruction
    state : State R
    runs : result ≡ ok (out, state)
    mnem : out.mnem ≡ i.mnem
    ops : out.ops ≡ i.ops
    cond_is : out.cond ≡ cond
    used : state.used_addrs ≡ t.used_addrs

  set_cond-Leaves :
      (i : Instruction) (t : State R)
      → Progress i.mnem [] i.ops
      → Leaves i i.cond t (set_cond random mnems weights i t)
  set_cond-Leaves i t p = elim (Bool-cases (is_cex i.mnem)) [
    | inl e ↦
        let (m, m_is) = cex_m i.mnem i.ops e p in
        let sets : sets_cond i.mnem ≡ true = ground (arith, e) in
        let x = with_mask random mnems weights m i t in
        record {
          out = x.0;
          state = x.1;
          runs = rw (sets, e, m_is) refl;
          mnem = refl;
          ops = refl;
          cond_is = refl;
          used = refl;
        }
    | inr e ↦ elim (Bool-cases (is_cmpx i.mnem)) [
      | inl f ↦ record {
        out = i;
        state = record t { cond = cond_t ∷ [] };
        runs = rw (f, e) refl;
        mnem = refl;
        ops = refl;
        cond_is = refl;
        used = refl;
      }
      | inr f ↦ record {
        out = i;
        state = t;
        runs = rw (f, e) refl;
        mnem = refl;
        ops = refl;
        cond_is = refl;
        used = refl;
      }
    ]
  ]

  conclude-Leaves :
      (conds : List Cond) (i : Instruction) (t : State R)
      → i.cond ≡ none
      → Progress i.mnem [] i.ops
      → Leaves i (first_cond conds) t (conclude random mnems weights i (record t { cond = conds }))
  conclude-Leaves [] i t n p =
      let r = set_cond-Leaves i (record t { cond = [] }) p in
      record {
        out = r.out;
        state = r.state;
        runs = r.runs;
        mnem = r.mnem;
        ops = r.ops;
        cond_is = r.cond_is ∙ n;
        used = r.used;
      }
  conclude-Leaves (x ∷ conds) i t n p =
      let r = set_cond-Leaves (record i { cond = some x }) (record t { cond = conds }) p in
      record {
        out = r.out;
        state = r.state;
        runs = r.runs;
        mnem = r.mnem;
        ops = r.ops;
        cond_is = r.cond_is;
        used = r.used;
      }

  -- The operands of an instruction fill its encoding, the immediate has 16 bits and is there just
  -- where C is SP, and the words that the instruction goes to or touches are free.
  pub record IsGenerated (pc : ℕ) (regs : List (Option ℕ)) (used : List ℕ) (i : Instruction)
      : Type 0 where
    pub fits : (l : Operand) → Fits (count l (pattern i.mnem)) (get_op l i.ops)
    pub imm : ImmOf i.ops.c i.ops.imm
    pub reaches : ReachesIf pc regs (addresses i.mnem) used i.mnem i.ops

  -- If `randint` keeps its bounds, the registers hold 16-bit values, one of the choices of a
  -- mnemonic that the fuel allows is not barred by pending conditions, and within the fuel a choice
  -- has sixteen free words at any base, then `rand_instr` returns an instruction, under the first
  -- pending condition: each operand of its encoding has a value that fits, and no other is there;
  -- the immediate has 16 bits and is there just where C is SP; the target of a branch and the words
  -- that a memory operation touches are free. No address gets used.
  pub rand_instr-IsGenerated :
      (n fuel pc : ℕ) (regs : List (Option ℕ)) (t : State R) (in_range : InRange random)
      → (known : AllKnown 16 regs) → n < fuel
      → is_barred (after_picks n t) ≡ false
      → HasRoom random fuel pc regs in_range (AllKnown-AreKnown 16 regs known) t.used_addrs
      → (i : Instruction) × (t' : State R) × (rand_instr random mnems weights fuel pc regs t
          ≡ ok (i, t'))
        × IsGenerated pc regs t.used_addrs i
        × (i.cond ≡ first_cond t.cond)
        × (t'.used_addrs ≡ t.used_addrs)
  unfolding rand_instr Picks
  rand_instr-IsGenerated n fuel pc regs t in_range known lt free room =
      let (k, t1, chosen, kept1) = choose_mnem-runs n fuel pc t lt free in
      let t2 : State R = record t1 { count = t1.count - 1 } in
      let regs_known = AllKnown-AreKnown 16 regs known in
      let c =
        pick_ops-Chosen random fuel pc regs in_range regs_known t2
          (subst (HasRoom random fuel pc regs in_range regs_known) (sym (kept1.0)) room) k in
      let i0 : Instruction = record { mnem = c.mnem; ops = c.ops; cond = none; cex_mask = none } in
      let r = conclude-Leaves c.state.cond i0 c.state refl c.progress in
      (
        r.out,
        r.state,
        rw (chosen, c.runs, r.runs) refl,
        record {
          fits = rw (r.mnem, r.ops) c.progress.fits;
          imm = rw r.ops c.progress.imm;
          reaches =
              rw (r.mnem, r.ops)
                (subst (λ (used : List ℕ). ReachesIf pc regs (addresses c.mnem) used c.mnem c.ops)
                  kept1.0 c.reaches);
        },
        r.cond_is ∙ ap first_cond (c.kept.1 ∙ kept1.1),
        r.used ∙ (c.kept.0 ∙ kept1.0),
      )
