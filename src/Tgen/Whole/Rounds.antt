-- ===== src/Tgen/Whole/Rounds.antt =====
-- The rounds of the loop of `rand_instr` of scripts/tgen.py, one after another.
use idli_v.Prelude.{
  ℕ, ◌^◌, ◌<◌, ◌≡◌, refl, sym, subst, ◌∙◌, arith, true, false, List, [], ◌∷◌, Option, none, some,
  ok,
}
use idli_v.Isa.Mnem.{Mnem}
use idli_v.Isa.Encoding.{Operand, count, pattern}
use idli_v.Isa.Instr.{Ops, no_ops}
use idli_v.Isa.Instr.Encode.{Fits, elem, AreDistinct}
use idli_v.Isa.Instr.Fill.{same_refl}
use idli_v.Tgen.{Random, State}
use idli_v.Tgen.Pick.{is_redirect, mem_op, is_addr, op_names, pick_op, pick_ops, reg_value}
use idli_v.Tgen.Operands.{
  Progress, Progress-next, InRange, Kept, start, width, count-width, op_names-AreDistinct,
}
use idli_v.Tgen.Operands.Plain.{plain-Step}
use idli_v.Tgen.Target.{Chosen, ReachesIf, addresses}
use idli_v.Tgen.Final.{AreKnown, HasRoom, reg_value-known}

module _ {R : Type 0} (random : Random R) (fuel pc : ℕ) (regs : List (Option ℕ))
    (in_range : InRange random) (known : AreKnown regs) where
  pub last :
      (l : Operand) (k : Mnem) (o : Ops) (t : State R)
      → Chosen pc regs t (pick_op pc regs random fuel l k o t)
      → Chosen pc regs t (pick_ops pc regs random fuel (l ∷ []) k o t)
  unfolding pick_ops
  last l k o t c = record {
    mnem = c.mnem;
    ops = c.ops;
    state = c.state;
    runs = rw c.runs refl;
    progress = c.progress;
    kept = c.kept;
    reaches = c.reaches;
  }

  -- A round for an operand without an address, and the rest.
  pub next :
      (l : Operand) (rest : List Operand) (k : Mnem) (o : Ops) (t : State R)
      → is_redirect k ≡ false
      → is_addr k l ≡ false
      → elem l rest ≡ false
      → count l (pattern k) ≡ width l
      → Progress k (l ∷ rest) o
      → ((o' : Ops) (t' : State R)
          → Progress k rest o'
          → Kept t t'
          → Chosen pc regs t' (pick_ops pc regs random fuel rest k o' t'))
      → Chosen pc regs t (pick_ops pc regs random fuel (l ∷ rest) k o t)
  unfolding pick_ops
  next l rest k o t g a new w p go =
      let s = plain-Step random fuel pc regs in_range l k o t g a in
      let c = go s.ops s.state (Progress-next k l rest o s.ops new w p s.sets) s.kept in
      record {
        mnem = c.mnem;
        ops = c.ops;
        state = c.state;
        runs = rw (s.runs, c.runs) refl;
        progress = c.progress;
        kept = (c.kept.0 ∙ s.kept.0, c.kept.1 ∙ s.kept.1);
        reaches =
            subst (λ (used : List ℕ). ReachesIf pc regs (addresses c.mnem) used c.mnem c.ops)
              s.kept.0 c.reaches;
      }

  abbrev Named : Mnem → List Operand → Type 0
  Named k ls = (l : Operand) → elem l ls ≡ true → count l (pattern k) ≡ width l

  -- All rounds of a mnemonic without an address.
  plain_ops :
      (ls : List Operand) (k : Mnem) (o : Ops) (t : State R)
      → is_redirect k ≡ false
      → mem_op k ≡ none
      → AreDistinct ls
      → Named k ls
      → Progress k ls o
      → Chosen pc regs t (pick_ops pc regs random fuel ls k o t)
  unfolding pick_ops
  plain_ops [] k o t g m d w p = record {
    mnem = k;
    ops = o;
    state = t;
    runs = refl;
    progress = p;
    kept = (refl, refl);
    reaches = rw (m, g, ReachesIf, addresses) tt;
  }
  plain_ops (l ∷ ls) k o t g m d w p =
      next l ls k o t g (rw (is_addr, m, g) refl) d.0 (w l (rw (same_refl l) refl)) p
        (λ o' t' p' kept. plain_ops ls k o' t' g m d.1 (λ i e. w i (ground (arith, e))) p')

  Named-op_names : (k : Mnem) → Named k (op_names k)
  Named-op_names k l e = count-width k l ∙ rw e refl

  pub plain_mnem :
      (k : Mnem) (t : State R)
      → is_redirect k ≡ false
      → mem_op k ≡ none
      → Chosen pc regs t (pick_ops pc regs random fuel (op_names k) k no_ops t)
  plain_mnem k t g m =
      plain_ops (op_names k) k no_ops t g m (op_names-AreDistinct k) (Named-op_names k) (start k)

  pub reg-Fits : (v : Option ℕ) → Fits 4 v → (w : ℕ) × (reg_value regs v ≡ ok w) × (w < 2 ^ 16)
  reg-Fits none f = absurd f
  reg-Fits (some v) f = reg_value-known random fuel pc regs in_range known v f

  pub still :
      (t t' : State R)
      → HasRoom random fuel pc regs in_range known t.used_addrs
      → t'.used_addrs ≡ t.used_addrs
      → HasRoom random fuel pc regs in_range known t'.used_addrs
  still t t' h e = subst (HasRoom random fuel pc regs in_range known) (sym e) h
