-- ===== src/Sim/Window/Open.antt =====
-- CARRY, ANDP and ORP of scripts/sim.py start the counter, and the instructions behind them use it
-- up.
use idli_v.Prelude.{
  ℕ, zero, suc, ◌+◌, ◌-◌, ◌≡◌, refl, ap, ◌∙◌, sym, arith, Bool, true, false, not, Option, none,
  some, List, [], ◌∷◌, map, all, ok, Result, pos, negsuc, ◌+ℤ◌, ltb_ℤ, ltb, min, length, subst,
  if◌then◌else◌,
}
use idli_v.Isa.Mnem.{Mnem}
use idli_v.Isa.Instr.{Ops, Item, instr, Instruction, item_size}
use idli_v.Sim.State.{Callback, CountOp, op_carry, op_and, op_or, Sim, M, pure, modify, ◌>>=◌, ◌>>◌}
use idli_v.Sim.Exec.{need, carry, andor_p}
use idli_v.Sim.Tick.{
  is_idle, check_run, step_count, step_carry, keeps_carry, set_pc, exec, exec_item, run_item, tick,
}
use idli_v.Sim.Step.{arrive, run_item-is_idle}
use idli_v.Sim.Registers.Tick.{ticks}
use idli_v.Sim.Window.{
  Counter, counter, next, Post, Counts, Keeps, modify-Counts, >>=-Counts, >>=-Keeps, if-Keeps,
  pure-Keeps, gets-Keeps,
}
use idli_v.Sim.Window.Exec.{opens, item_opens, exec_item-Keeps}

module _ {E : Type 0} (cb : Callback E) where
  counter-finish :
      (valid : Bool) (target : Option ℕ) (pc : ℕ) (s : Sim E)
      → counter (step_carry valid (step_count (set_pc cb target pc s))) ≡ next (counter s)
  unfolding step_carry step_count
  counter-finish valid none pc s = refl
  counter-finish valid (some zero) pc s = refl
  counter-finish valid (some (suc n)) pc s = refl

  check_run-Keeps : Keeps {E = E} check_run
  unfolding check_run
  check_run-Keeps = >>=-Keeps (gets-Keeps (λ s. s.cond)) λ c.
      >>=-Keeps (gets-Keeps (λ s. s.pred)) λ p.
        >>=-Keeps (if-Keeps (is_idle c) (pure-Keeps tt) (modify-Counts (λ c. c) _ (λ s. refl)))
          λ u. pure-Keeps _

  run_item-Counts : (item : Item) → item_opens item ≡ false → Counts next (run_item cb item)
  unfolding run_item
  run_item-Counts item h =
      let move : ℕ → M E (Unit {0}) =
        λ pc. modify (λ s. record s { pc = pc + (item_size item - 1) }) in
      let finish : ℕ → Option ℕ → M E (Unit {0}) = λ pc target. modify (λ s.
        step_carry (keeps_carry item) (step_count (set_pc cb target (pc + item_size item) s))) in
      let body : ℕ → Bool → M E (Unit {0}) =
        λ pc run. (if run then exec_item cb item else pure none) >>= finish pc in
      >>=-Counts {f = λ pc. move pc >> (check_run >>= body pc)} (gets-Keeps (λ s. s.pc)) λ pc.
        >>=-Counts {f = λ u. check_run >>= body pc} (modify-Counts (λ c. c) _ (λ s. refl)) λ u.
          >>=-Counts {f = body pc} check_run-Keeps λ run.
            >>=-Counts {f = finish pc} (if-Keeps run (exec_item-Keeps cb item h) (pure-Keeps none))
              λ target.
                modify-Counts next _
                  (counter-finish (keeps_carry item) target (pc + item_size item))

-- The counter after this many instructions.
abbrev after : ℕ → Counter → Counter
after zero c = c
after (suc n) c = after n (next c)

given-Counts :
    {E : Type 0} (cb : Callback E) (items : List Item)
    → all (λ item. not (item_opens item)) items ≡ true
    → Counts (after (length items)) (ticks cb (map some items))
unfolding tick
given-Counts cb [] h = pure-Keeps tt
given-Counts cb (item ∷ items) h =
    >>=-Counts {g = next} {h = after (length items)} (run_item-Counts cb item (ground (arith, h)))
      λ u. given-Counts cb items (ground (arith, h))

-- The counter, this many instructions behind the one that started it.
abbrev InWindow : ℕ → Option CountOp → ℕ → Counter → Type 0
InWindow max op n c =
    (c.max ≡ max) × (c.num ≡ pos (min n max)) × (c.op ≡ (if ltb n max then op else none))

next_count :
    (n max : ℕ)
    → (if ltb_ℤ (pos (min n max)) (pos max) then pos (min n max) +ℤ pos 1 else pos (min n max))
      ≡ pos (min (suc n) max)
next_count n max = ground arith

next-InWindow :
    (max : ℕ) (op : Option CountOp) (n : ℕ) (c : Counter)
    → InWindow max op n c
    → InWindow max op (suc n) (next c)
next-InWindow max op n c (m, k, o) =
    (m, rw (k, m) (next_count n max), rw (k, m, o, next_count n max) (ground arith))

after-InWindow :
    (max : ℕ) (op : Option CountOp) (k n m : ℕ) (c : Counter)
    → m ≡ k + n
    → InWindow max op n c
    → InWindow max op m (after k c)
after-InWindow max op zero n m c e h = subst (λ (t : ℕ). InWindow max op t c) (omega (arith, e)) h
after-InWindow max op (suc k) n m c e h =
    after-InWindow max op k (suc n) m (next c) (omega (arith, e)) (next-InWindow max op n c h)

-- The operation that an instruction starts.
abbrev pub opening : Mnem → Option CountOp
opening Mnem.carry = some op_carry
opening Mnem.andp = some op_and
opening Mnem.orp = some op_or
opening _ = none

abbrev opened : ℕ → Option CountOp → Counter
opened j op = record { num = negsuc 0; max = j; op = op }

opened-InWindow : (j : ℕ) (op : Option CountOp) → InWindow j op 0 (next (opened j op))
opened-InWindow j op = (refl, ground arith, ground arith)

need-some : {E : Type 0} (o : Option ℕ) (j : ℕ) (s : Sim E) → o ≡ some j → need o s ≡ ok (j, s)
need-some o j s e = rw e refl

module _ {E : Type 0} (cb : Callback E) where
  exec-opens :
      (k : Mnem) (o : Ops) (mask : Option ℕ) (j : ℕ) (s : Sim E)
      → opens k ≡ true
      → o.j ≡ some j
      → (s' : Sim E) × (exec cb k o mask s ≡ ok (none, s')) × (counter s' ≡ opened j (opening k))
  unfolding exec carry andor_p
  exec-opens Mnem.carry o mask j s h e = (
    record s { num_count = negsuc 0; max_count = j; count_op = some op_carry; cin = 0 },
    rw (need-some o.j j s e, ◌>>=◌) refl,
    refl,
  )
  exec-opens Mnem.andp o mask j s h e = (
    record s { num_count = negsuc 0; max_count = j; count_op = some op_and },
    rw (need-some o.j j s e, ◌>>=◌) refl,
    refl,
  )
  exec-opens Mnem.orp o mask j s h e = (
    record s { num_count = negsuc 0; max_count = j; count_op = some op_or },
    rw (need-some o.j j s e, ◌>>=◌) refl,
    refl,
  )
  exec-opens _ o mask j s h e = absurd (ground (arith, h))

  run_item-opens :
      (i : Instruction) (j : ℕ) (s : Sim E)
      → opens i.mnem ≡ true
      → i.ops.j ≡ some j
      → is_idle s.cond ≡ true
      → (s' : Sim E) × (run_item cb (instr i) s ≡ ok (tt, s'))
        × (counter s' ≡ next (opened j (opening i.mnem)))
  run_item-opens i j s h e idle =
      let item = instr i in
      let s1 = record s { pc = s.pc + (item_size item - 1) } in
      let (s2, done, start) = exec-opens i.mnem i.ops i.cex_mask j s1 h e in
      (
        arrive cb item none (s.pc + item_size item) s2,
        run_item-is_idle cb item s idle done,
        counter-finish cb (keeps_carry item) none (s.pc + item_size item) s2 ∙ ap next start,
      )

-- The end of a series of ticks, from this result on.
Post-ok :
    {E A : Type 0} (c : Counter) (r : Result (A × Sim E)) (a : A) (s : Sim E)
    → r ≡ ok (a, s)
    → Post c r
    → counter s ≡ c
Post-ok c r a s e h = subst (λ x. Post c x) e h

-- A CARRY, ANDP or ORP with operand J, that no condition holds back, and then a series of given
-- instructions none of which is one of these three, whether they run or are skipped: when all of
-- them have been done without an error, the operation is in force exactly if they are fewer than
-- J, and the count is their number, up to J.
pub ticks-InWindow :
    {E : Type 0} (cb : Callback E) (i : Instruction) (j : ℕ) (items : List Item) (s s' : Sim E)
    → opens i.mnem ≡ true
    → i.ops.j ≡ some j
    → is_idle s.cond ≡ true
    → all (λ item. not (item_opens item)) items ≡ true
    → ticks cb (some (instr i) ∷ map some items) s ≡ ok (tt, s')
    → (s'.count_op ≡ (if ltb (length items) j then opening i.mnem else none))
      × (s'.num_count ≡ pos (min (length items) j))
unfolding tick
ticks-InWindow cb i j items s s' h e idle others done =
    let (s1, ran, start) = run_item-opens cb i j s h e idle in
    let rest : ticks cb (map some items) s1 ≡ ok (tt, s') = sym (rw (ran, ◌>>=◌) refl) ∙ done in
    let ended : counter s' ≡ after (length items) (counter s1) =
      Post-ok (after (length items) (counter s1)) (ticks cb (map some items) s1) tt s' rest
        ((given-Counts cb items others).post s1) in
    let op = opening i.mnem in
    let (m, n, o) =
      after-InWindow j op (length items) 0 (length items) (next (opened j op)) (omega arith)
        (opened-InWindow j op) in
    let all_of : counter s' ≡ after (length items) (next (opened j op)) =
      ended ∙ ap (after (length items)) start in
    (ap (λ c. c.op) all_of ∙ o, ap (λ c. c.num) all_of ∙ n)
