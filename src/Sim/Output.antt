-- ===== src/Sim/Output.antt =====
-- What a run of the main program of scripts/sim.py that succeeds has sent over the UART.
use mathlib.Core.List.{reverse, reverse-reverse, reverse-append, append_assoc}
use idli_v.Prelude.{
  ℕ, zero, suc, ◌≡◌, refl, sym, ap, ap₂, subst, ◌∙◌, List, [], ◌∷◌, ◌++◌, map, Option, none, some,
  ℤ, low16, take, drop, Result, ok, err, list_eq, list_eq→eq, inl, inr, Bool-cases, parts,
}
use idli_v.Sim.State.{Sim, init}
use idli_v.Sim.Tick.{tick}
use idli_v.Sim.Host.{
  Host, PinEvent, host, load, update_pins, end_of_test, exit_code, run_loop, run, check_output,
  check_run, check_end,
}

take-drop : (n : ℕ) (xs : List ℕ) → take n xs ++ drop n xs ≡ xs
take-drop zero xs = refl
take-drop (suc n) [] = refl
take-drop (suc n) (x ∷ xs) = ap (λ (t : List ℕ). x ∷ t) (take-drop n xs)

-- The marker and the exit code at the end, and what stands before.
check_end-parts :
    (back : List ℕ) (code : ℕ) (output : List ℕ)
    → check_end back ≡ some code
    → reverse (drop 8 back) ≡ output
    → reverse back ≡ output ++ (end_of_test ++ code ∷ [])
check_end-parts [] code output h o = absurd (cc h)
check_end-parts (c ∷ before) code output h o =
    elim (Bool-cases (list_eq (reverse (take 7 before)) end_of_test)) [
      | inl e ↦
          let before_is : reverse (take 7 before) ≡ end_of_test =
            list_eq→eq (reverse (take 7 before)) end_of_test e in
          let c_is : c ≡ code = cc (rw e at h) in
          let tail : reverse before ≡ output ++ end_of_test =
            ap reverse (sym (take-drop 7 before))
            ∙ reverse-append (take 7 before) (drop 7 before)
            ∙ ap₂ ◌++◌ o before_is in
          reverse-append (c ∷ []) before
          ∙ ap₂ ◌++◌ tail (ap (λ (n : ℕ). n ∷ []) c_is)
          ∙ append_assoc output end_of_test (code ∷ [])
      | inr e ↦ absurd (cc (rw e at h))
    ]

shown :
    (rest : Result (ℕ × Sim Host)) (s1 : Sim Host) (e : Option ℕ) {code : ℕ} {s' : Sim Host}
    → exit_code s1.env.uart_tx ≡ e
    → elim e [ some c ↦ ok (c, s1) | none ↦ rest ] ≡ ok (code, s')
    → (rest ≡ ok (code, s') → exit_code s'.env.uart_tx ≡ some code)
    → exit_code s'.env.uart_tx ≡ some code
shown rest s1 (some c) {code} {s'} e h go =
    let same : s1 ≡ s' = cc h in
    let c_is : c ≡ code = cc h in
    subst (λ (t : Sim Host). exit_code t.env.uart_tx ≡ some code) same (e ∙ ap some c_is)
shown rest s1 none e h go = go h

-- A run of the loop ends with the exit code that the UART shows.
run_loop-exit_code :
    (timeout : ℕ) (events : List PinEvent) (s : Sim Host) {code : ℕ} {s' : Sim Host}
    → run_loop timeout events s ≡ ok (code, s')
    → exit_code s'.env.uart_tx ≡ some code
unfolding run_loop
run_loop-exit_code zero events s h = absurd (cc h)
run_loop-exit_code (suc timeout) events s {code} {s'} h =
    let (p, h1, pins) = parts (update_pins events s.ticks s.env.pins) _ h in
    let (x, h2, ran) =
      parts (tick host none (record s { env = record s.env { pins = p.1 } })) _ h1 in
    shown (run_loop timeout (p.0) (x.1)) (x.1) (exit_code (x.1).env.uart_tx) refl h2
      (run_loop-exit_code timeout (p.0) (x.1))

ended :
    (r : Result (ℕ × Sim Host)) (z : ℤ) (zs : List ℤ) {s : Sim Host}
    → check_run (z ∷ zs) r ≡ ok s
    → ((code : ℕ) (s1 : Sim Host) → r ≡ ok (code, s1) → exit_code s1.env.uart_tx ≡ some code)
    → s.env.uart_tx ≡ map low16 (z ∷ zs) ++ (end_of_test ++ 0 ∷ [])
unfolding exit_code
ended (err e) z zs h exits = absurd (cc h)
ended (ok (suc code, s1)) z zs h exits = absurd (cc h)
ended (ok (zero, s1)) z zs {s} h exits =
    let tx = s1.env.uart_tx in
    elim (Bool-cases (check_output (z ∷ zs) tx)) [
      | inl e ↦
          let same : s1 ≡ s = cc (rw e at h) in
          let sent =
            check_end-parts (reverse tx) 0 (map low16 (z ∷ zs)) (exits 0 s1 refl)
              (list_eq→eq (reverse (drop 8 (reverse tx))) (map low16 (z ∷ zs)) e) in
          subst (λ (t : Sim Host). t.env.uart_tx ≡ map low16 (z ∷ zs) ++ (end_of_test ++ 0 ∷ []))
            same (sym (reverse-reverse tx) ∙ sent)
      | inr e ↦ absurd (cc (rw e at h))
    ]

-- If the main program accepts a run, with outputs to compare, then the simulated program has sent
-- exactly the low 16 bits of these outputs, the end marker, and exit code 0.
pub run-output :
    (timeout : ℕ) (binary : List ℕ) (input : List ℤ) (events : List PinEvent) (z : ℤ) (zs : List ℤ)
    (s : Sim Host)
    → run timeout binary input events (z ∷ zs) ≡ ok s
    → s.env.uart_tx ≡ map low16 (z ∷ zs) ++ (end_of_test ++ 0 ∷ [])
unfolding run exit_code
run-output timeout binary input events z zs s h =
    ended (run_loop timeout events (init (load binary input))) z zs h
      (λ code s1 e. run_loop-exit_code timeout events (init (load binary input)) e)
