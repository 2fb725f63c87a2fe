-- ===== src/Sim/Window.antt =====
-- The counter of scripts/sim.py that CARRY, ANDP and ORP start: for how many instructions their
-- effect lasts. Here, what an action makes of the counter, by a rule for each way to put actions
-- together.
pub mod Methods
pub mod Exec
pub mod Open
use idli_v.Prelude.{
  ℕ, zero, suc, ◌≡◌, refl, ap, ◌∙◌, Bool, true, false, Option, none, some, ok, err, Result, Error,
  ℤ, pos, ◌+ℤ◌, ltb, ltb_ℤ, get_elem?, if◌then◌else◌, length, Bool-cases, inl, inr,
}
use idli_v.Sim.State.{
  Callback, CountOp, Sim, M, pure, raise, gets, lift, known, modify, call, ◌>>=◌, ◌>>◌, read_reg,
  write_reg, write_pred, write_cond, write_out_pin, write_mem,
}

-- The counter, its bound, and the operation that lasts.
pub record Counter : Type 0 where
  pub num : ℤ
  pub max : ℕ
  pub op : Option CountOp

abbrev pub counter : {E : Type 0} → Sim E → Counter
counter s = record { num = s.num_count; max = s.max_count; op = s.count_op }

abbrev up : ℤ → ℕ → ℤ
up n max = if ltb_ℤ n (pos max) then n +ℤ pos 1 else n

-- The counter after one more instruction.
abbrev pub next : Counter → Counter
next c = record {
  num = up c.num c.max;
  max = c.max;
  op = if ltb_ℤ (up c.num c.max) (pos c.max) then c.op else none;
}

-- The result has this counter, if there is one.
abbrev pub Post : {E A : Type 0} → Counter → Result (A × Sim E) → Type 0
Post c (err e) = Unit {0}
Post c (ok (a, s)) = counter s ≡ c

-- What an action makes of the counter.
pub record Counts {E A : Type 0} (g : Counter → Counter) (m : M E A) : Type 0 where
  pub post : (s : Sim E) → Post (g (counter s)) (m s)

-- The action leaves the counter.
abbrev pub Keeps : {E A : Type 0} → M E A → Type 0
Keeps m = Counts (λ c. c) m

Post-eq : {E A : Type 0} (c d : Counter) (r : Result (A × Sim E)) → c ≡ d → Post c r → Post d r
Post-eq c d (err e) q p = tt
Post-eq c d (ok (a, s)) q p = p ∙ q

module _ {E A B : Type 0} where
  Post->>= :
      (g h : Counter → Counter) (c : Counter) (r : Result (A × Sim E)) (f : A → M E B)
      → Post (g c) r
      → ((a : A) → Counts h (f a))
      → Post (h (g c)) (elim r [ err e ↦ err e | ok (a, s') ↦ f a s' ])
  Post->>= g h c (err e) f p k = tt
  Post->>= g h c (ok (a, s)) f p k =
      Post-eq (h (counter s)) (h (g c)) (f a s) (ap h p) ((k a).post s)

  pub >>=-Counts :
      {m : M E A} {f : A → M E B} {g h : Counter → Counter}
      → Counts g m
      → ((a : A) → Counts h (f a))
      → Counts (λ c. h (g c)) (m >>= f)
  >>=-Counts {m = m} {f = f} {g = g} {h = h} p k = record {
    post = λ s. Post->>= g h (counter s) (m s) f (p.post s) k;
  }

  pub >>=-Keeps : {m : M E A} {f : A → M E B} → Keeps m → ((a : A) → Keeps (f a)) → Keeps (m >>= f)
  >>=-Keeps p k = >>=-Counts p k

module _ {E A : Type 0} where
  pub if-Keeps : (b : Bool) {m n : M E A} → Keeps m → Keeps n → Keeps (if b then m else n)
  if-Keeps true p q = p
  if-Keeps false p q = q

  pub pure-Keeps : (a : A) → Keeps (pure {E = E} a)
  pure-Keeps a = record { post = λ s. refl }

  pub raise-Keeps : (e : Error) → Keeps (raise {E = E} {A = A} e)
  raise-Keeps e = record { post = λ s. tt }

  pub gets-Keeps : (f : Sim E → A) → Keeps (gets f)
  gets-Keeps f = record { post = λ s. refl }

module _ {E : Type 0} where
  pub modify-Counts :
      (g : Counter → Counter) (f : Sim E → Sim E)
      → ((s : Sim E) → counter (f s) ≡ g (counter s))
      → Counts g (modify f)
  modify-Counts g f h = record { post = h }

  known-Post : (o : Option (Option ℕ)) (s : Sim E) → Post (counter s) (lift (known o) s)
  known-Post none s = tt
  known-Post (some none) s = tt
  known-Post (some (some x)) s = refl

  pub read_reg-Keeps : (r : Option ℕ) → Keeps {E = E} (read_reg r)
  unfolding read_reg
  read_reg-Keeps none = record { post = λ s. tt }
  read_reg-Keeps (some r) = record { post = λ s. known-Post (get_elem? s.regs r) s }

module _ {E : Type 0} (cb : Callback E) where
  pub write_reg-Keeps : (r : Option ℕ) (x : ℕ) → Keeps (write_reg cb r x)
  unfolding write_reg
  write_reg-Keeps none x = record { post = λ s. refl }
  write_reg-Keeps (some zero) x = record { post = λ s. refl }
  write_reg-Keeps (some (suc r)) x = record {
    post = λ s. elim (Bool-cases (ltb r 15)) [ inl e ↦ rw e refl | inr e ↦ rw e tt ];
  }

  pub write_pred-Keeps : (b : Bool) → Keeps (write_pred cb b)
  unfolding write_pred
  write_pred-Keeps b = record { post = λ s. refl }

  pub write_cond-Keeps : (c : Option ℕ) → Keeps (write_cond cb c)
  unfolding write_cond
  write_cond-Keeps none = record { post = λ s. tt }
  write_cond-Keeps (some c) = record { post = λ s. refl }

  pub write_out_pin-Keeps : (n x : ℕ) → Keeps (write_out_pin cb n x)
  unfolding write_out_pin
  write_out_pin-Keeps n x = record {
    post =
        λ s. elim (Bool-cases (ltb n (length s.out_pins))) [ inl e ↦ rw e refl | inr e ↦ rw e tt ];
  }

  call-Post :
      {A : Type 0} (r : Result (A × E)) (s : Sim E)
      → Post (counter s) (elim r [ err e ↦ err e | ok (a, e') ↦ ok (a, record s { env = e' }) ])
  call-Post (err e) s = tt
  call-Post (ok (a, e)) s = refl

  pub call-Keeps : {A : Type 0} (f : E → Result (A × E)) → Keeps (call cb f)
  call-Keeps f = record { post = λ s. call-Post (f s.env) s }

  write_mem-Post :
      (r : Result E) (s : Sim E)
      → Post (counter s) (elim r [ err e ↦ err e | ok e' ↦ ok (tt, record s { env = e' }) ])
  write_mem-Post (err e) s = tt
  write_mem-Post (ok e) s = refl

  pub write_mem-Keeps : (a x : ℕ) → Keeps (write_mem cb a x)
  write_mem-Keeps a x = record { post = λ s. write_mem-Post (cb.write_mem a x s.env) s }
