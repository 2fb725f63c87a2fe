-- ===== src/Sim/Registers.antt =====
-- What every tick of scripts/sim.py keeps: the shape of the register file and the ranges of what
-- it holds, by a rule for each way to put actions together.
pub mod Exec
pub mod Load
pub mod Tick
use idli_v.Prelude.{
  ℕ, zero, suc, ◌+◌, ◌-◌, ◌*◌, ◌/◌, ◌%◌, ◌^◌, ◌≤◌, ◌<◌, ◌≡◌, ◌≢◌, refl, sym, ap, ◌∙◌, arith, Bool,
  true, false, Option, none, some, ok, err, Result, Error, set, get_elem?, ltb, ◌==◌, if◌then◌else◌,
  length, length-set, get_elem?-set_self, get_elem?-set_ne, Bool-cases, inl, inr,
}
use idli_v.Sim.State.{
  Callback, Sim, M, pure, raise, gets, lift, modify, call, ◌>>=◌, ◌>>◌, known, read_reg, write_reg,
  write_pred, write_cond, write_out_pin, write_mem,
}

module _ {E : Type 0} where
  -- Sixteen registers, the first of them zero and none above 16 bits, a carry of one bit, and
  -- four output pins.
  pub record IsValid (s : Sim E) : Type 0 where
    pub regs_length : length s.regs ≡ 16
    pub regs_zero : get_elem? s.regs 0 ≡ some (some 0)
    pub regs_word : (i v : ℕ) → get_elem? s.regs i ≡ some (some v) → v < 2 ^ 16
    pub cin_bit : s.cin ≤ 1
    pub pins_length : length s.out_pins ≡ 4

  -- A result, if there is one, is valid, and its value is as stated.
  abbrev pub Post : {A : Type 0} → Result (A × Sim E) → (A → Type 0) → Type 0
  Post (err e) Q = Unit {0}
  Post (ok (a, s)) Q = IsValid s × Q a

  pub record Ensures {A : Type 0} (m : M E A) (Q : A → Type 0) : Type 0 where
    pub post : (s : Sim E) → IsValid s → Post (m s) Q

abbrev stored : Option (Option ℕ) → ℕ
stored (some (some x)) = x
stored _ = 0

-- Nothing is said of the value.
abbrev pub Anything : {A : Type 0} → A → Type 0
Anything a = Unit {0}

abbrev pub Keeps : {E A : Type 0} → M E A → Type 0
Keeps m = Ensures m Anything

module _ {E A B : Type 0} where
  Post->>= :
      (r : Result (A × Sim E)) (f : A → M E B) (Q : A → Type 0) (R : B → Type 0)
      → Post r Q
      → ((a : A) → Q a → Ensures (f a) R)
      → Post (elim r [ err e ↦ err e | ok (a, s') ↦ f a s' ]) R
  Post->>= (err e) f Q R h k = tt
  Post->>= (ok (a, s)) f Q R h k = (k a h.1).post s h.0

  pub >>=-Ensures :
      {m : M E A} {f : A → M E B} {Q : A → Type 0} {R : B → Type 0}
      → Ensures m Q
      → ((a : A) → Q a → Ensures (f a) R)
      → Ensures (m >>= f) R
  >>=-Ensures {m = m} {f = f} {Q = Q} {R = R} h k = record {
    post = λ s v. Post->>= (m s) f Q R (h.post s v) k;
  }

module _ {E : Type 0} where
  pub if-Ensures :
      {A : Type 0} (b : Bool) {m n : M E A} {Q : A → Type 0}
      → Ensures m Q
      → Ensures n Q
      → Ensures (if b then m else n) Q
  if-Ensures true h k = h
  if-Ensures false h k = k

  pub pure-Ensures : {A : Type 0} {Q : A → Type 0} (a : A) → Q a → Ensures (pure {E = E} a) Q
  pure-Ensures a q = record { post = λ s v. (v, q) }

  pub raise-Ensures :
      {A : Type 0} {Q : A → Type 0} (e : Error) → Ensures (raise {E = E} {A = A} e) Q
  raise-Ensures e = record { post = λ s v. tt }

  pub gets-Ensures :
      {A : Type 0} {Q : A → Type 0} (f : Sim E → A)
      → ((s : Sim E) → IsValid s → Q (f s))
      → Ensures (gets f) Q
  gets-Ensures f h = record { post = λ s v. (v, h s v) }

  pub modify-Keeps :
      (f : Sim E → Sim E) → ((s : Sim E) → IsValid s → IsValid (f s)) → Keeps (modify f)
  modify-Keeps f h = record { post = λ s v. (h s v, tt) }

  -- A change of the other fields.
  pub IsValid-regs :
      (s s' : Sim E)
      → IsValid s
      → s'.regs ≡ s.regs
      → s'.cin ≤ 1
      → length s'.out_pins ≡ length s.out_pins
      → IsValid s'
  IsValid-regs s s' v e c p = record {
    regs_length = rw e v.regs_length;
    regs_zero = rw e v.regs_zero;
    regs_word = λ i x h. v.regs_word i x (sym (ap (λ rs. get_elem? rs i) e) ∙ h);
    cin_bit = c;
    pins_length = p ∙ v.pins_length;
  }

  known-Post :
      (o : Option (Option ℕ)) (s : Sim E)
      → IsValid s
      → ((x : ℕ) → o ≡ some (some x) → x < 2 ^ 16)
      → Post (lift (known o) s) (λ x. x < 2 ^ 16)
  known-Post none s v h = tt
  known-Post (some none) s v h = tt
  known-Post (some (some x)) s v h = (v, h x refl)

  pub read_reg-Ensures : (r : Option ℕ) → Ensures {E = E} (read_reg r) (λ x. x < 2 ^ 16)
  unfolding read_reg
  read_reg-Ensures none = record { post = λ s v. tt }
  read_reg-Ensures (some r) = record {
    post = λ s v. known-Post (get_elem? s.regs r) s v (v.regs_word r);
  }

  set-word :
      (s : Sim E) (r x i y : ℕ)
      → x < 2 ^ 16
      → r < 16
      → IsValid s
      → get_elem? (set s.regs r (some x)) i ≡ some (some y)
      → y < 2 ^ 16
  set-word s r x i y h k v e = elim (Bool-cases (r == i)) [
    | inl p ↦
        (let same : r ≡ i = ground arith in
          let found = get_elem?-set_self s.regs r (some x) (omega (arith, v.regs_length)) in
          let value : x ≡ y =
            ap stored (sym found ∙ (ap (λ j. get_elem? (set s.regs r (some x)) j) same ∙ e)) in
          omega (arith, value))
    | inr p ↦
        v.regs_word i y (sym (get_elem?-set_ne s.regs r i (some x) (λ q. ground (arith, q))) ∙ e)
  ]

  set-IsValid :
      (s : Sim E) (r x : ℕ) (e : E)
      → x < 2 ^ 16
      → suc r < 16
      → IsValid s
      → IsValid (record s { regs = set s.regs (suc r) (some x); env = e })
  set-IsValid s r x e h k v = record {
    regs_length = length-set s.regs (suc r) (some x) ∙ v.regs_length;
    regs_zero = get_elem?-set_ne s.regs (suc r) 0 (some x) (λ e. omega arith) ∙ v.regs_zero;
    regs_word = λ i y e. set-word s (suc r) x i y h k v e;
    cin_bit = v.cin_bit;
    pins_length = v.pins_length;
  }

module _ {E : Type 0} (cb : Callback E) where
  pub write_reg-Keeps : (r : Option ℕ) (x : ℕ) → x < 2 ^ 16 → Keeps (write_reg cb r x)
  unfolding write_reg
  write_reg-Keeps none x h = record { post = λ s v. (v, tt) }
  write_reg-Keeps (some zero) x h = record { post = λ s v. (v, tt) }
  write_reg-Keeps (some (suc r)) x h = record {
    post = λ s v. elim (Bool-cases (ltb r 15)) [
      | inl e ↦ rw e (set-IsValid s r x (cb.write_reg (suc r) x s.env) h (ground arith) v, tt)
      | inr e ↦ rw e tt
    ];
  }

  pub write_pred-Keeps : (b : Bool) → Keeps (write_pred cb b)
  unfolding write_pred
  write_pred-Keeps b = record { post = λ s v. (IsValid-regs s _ v refl v.cin_bit refl, tt) }

  pub write_cond-Keeps : (c : Option ℕ) → Keeps (write_cond cb c)
  unfolding write_cond
  write_cond-Keeps none = record { post = λ s v. tt }
  write_cond-Keeps (some c) = record { post = λ s v. (IsValid-regs s _ v refl v.cin_bit refl, tt) }

  pub write_out_pin-Keeps : (n x : ℕ) → Keeps (write_out_pin cb n x)
  unfolding write_out_pin
  write_out_pin-Keeps n x = record {
    post = λ s v. elim (Bool-cases (ltb n (length s.out_pins))) [
      | inl e ↦ rw e (IsValid-regs s _ v refl v.cin_bit (length-set s.out_pins n (some x)), tt)
      | inr e ↦ rw e tt
    ];
  }

  call-Post :
      {A : Type 0} (r : Result (A × E)) (Q : A → Type 0) (s : Sim E)
      → IsValid s
      → ((a : A) (e : E) → r ≡ ok (a, e) → Q a)
      → Post (elim r [ err e ↦ err e | ok (a, e') ↦ ok (a, record s { env = e' }) ]) Q
  call-Post (err e) Q s v h = tt
  call-Post (ok (a, e)) Q s v h = (IsValid-regs s _ v refl v.cin_bit refl, h a e refl)

  pub call-Ensures :
      {A : Type 0} {Q : A → Type 0} (f : E → Result (A × E))
      → ((e e' : E) (a : A) → f e ≡ ok (a, e') → Q a)
      → Ensures (call cb f) Q
  call-Ensures {Q = Q} f h = record {
    post = λ s v. call-Post (f s.env) Q s v (λ a e p. h s.env e a p);
  }

  write_mem-Post :
      (r : Result E) (s : Sim E)
      → IsValid s
      → Post (elim r [ err e ↦ err e | ok e' ↦ ok (tt, record s { env = e' }) ]) Anything
  write_mem-Post (err e) s v = tt
  write_mem-Post (ok e) s v = (IsValid-regs s _ v refl v.cin_bit refl, tt)

  pub write_mem-Keeps : (a x : ℕ) → Keeps (write_mem cb a x)
  write_mem-Keeps a x = record { post = λ s v. write_mem-Post (cb.write_mem a x s.env) s v }
